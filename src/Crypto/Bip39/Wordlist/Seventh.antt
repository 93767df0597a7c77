-- ===== src/Crypto/Bip39/Wordlist/Seventh.antt =====
-- packages/crypto/src/bip39.ts, the words from `symptom` to `zoo`.
use cosmjs.Prelude.{List, ◌∷◌, [], Text, codes, map}

unfoldable pub words_13 : List Text
words_13 = map codes (
    "symptom" ∷ "syrup" ∷ "system" ∷ "table" ∷ "tackle" ∷ "tag" ∷ "tail" ∷ "talent" ∷ "talk"
    ∷ "tank" ∷ "tape" ∷ "target" ∷ "task" ∷ "taste" ∷ "tattoo" ∷ "taxi" ∷ "teach" ∷ "team" ∷ "tell"
    ∷ "ten" ∷ "tenant" ∷ "tennis" ∷ "tent" ∷ "term" ∷ "test" ∷ "text" ∷ "thank" ∷ "that" ∷ "theme"
    ∷ "then" ∷ "theory" ∷ "there" ∷ "they" ∷ "thing" ∷ "this" ∷ "thought" ∷ "three" ∷ "thrive"
    ∷ "throw" ∷ "thumb" ∷ "thunder" ∷ "ticket" ∷ "tide" ∷ "tiger" ∷ "tilt" ∷ "timber" ∷ "time"
    ∷ "tiny" ∷ "tip" ∷ "tired" ∷ "tissue" ∷ "title" ∷ "toast" ∷ "tobacco" ∷ "today" ∷ "toddler"
    ∷ "toe" ∷ "together" ∷ "toilet" ∷ "token" ∷ "tomato" ∷ "tomorrow" ∷ "tone" ∷ "tongue"
    ∷ "tonight" ∷ "tool" ∷ "tooth" ∷ "top" ∷ "topic" ∷ "topple" ∷ "torch" ∷ "tornado" ∷ "tortoise"
    ∷ "toss" ∷ "total" ∷ "tourist" ∷ "toward" ∷ "tower" ∷ "town" ∷ "toy" ∷ "track" ∷ "trade"
    ∷ "traffic" ∷ "tragic" ∷ "train" ∷ "transfer" ∷ "trap" ∷ "trash" ∷ "travel" ∷ "tray" ∷ "treat"
    ∷ "tree" ∷ "trend" ∷ "trial" ∷ "tribe" ∷ "trick" ∷ "trigger" ∷ "trim" ∷ "trip" ∷ "trophy"
    ∷ "trouble" ∷ "truck" ∷ "true" ∷ "truly" ∷ "trumpet" ∷ "trust" ∷ "truth" ∷ "try" ∷ "tube"
    ∷ "tuition" ∷ "tumble" ∷ "tuna" ∷ "tunnel" ∷ "turkey" ∷ "turn" ∷ "turtle" ∷ "twelve" ∷ "twenty"
    ∷ "twice" ∷ "twin" ∷ "twist" ∷ "two" ∷ "type" ∷ "typical" ∷ "ugly" ∷ "umbrella" ∷ "unable"
    ∷ "unaware" ∷ "uncle" ∷ "uncover" ∷ "under" ∷ "undo" ∷ "unfair" ∷ "unfold" ∷ "unhappy"
    ∷ "uniform" ∷ "unique" ∷ "unit" ∷ "universe" ∷ "unknown" ∷ "unlock" ∷ "until" ∷ "unusual"
    ∷ "unveil" ∷ "update" ∷ "upgrade" ∷ "uphold" ∷ [])

unfoldable pub words_14 : List Text
words_14 = map codes (
    "upon" ∷ "upper" ∷ "upset" ∷ "urban" ∷ "urge" ∷ "usage" ∷ "use" ∷ "used" ∷ "useful" ∷ "useless"
    ∷ "usual" ∷ "utility" ∷ "vacant" ∷ "vacuum" ∷ "vague" ∷ "valid" ∷ "valley" ∷ "valve" ∷ "van"
    ∷ "vanish" ∷ "vapor" ∷ "various" ∷ "vast" ∷ "vault" ∷ "vehicle" ∷ "velvet" ∷ "vendor"
    ∷ "venture" ∷ "venue" ∷ "verb" ∷ "verify" ∷ "version" ∷ "very" ∷ "vessel" ∷ "veteran" ∷ "viable"
    ∷ "vibrant" ∷ "vicious" ∷ "victory" ∷ "video" ∷ "view" ∷ "village" ∷ "vintage" ∷ "violin"
    ∷ "virtual" ∷ "virus" ∷ "visa" ∷ "visit" ∷ "visual" ∷ "vital" ∷ "vivid" ∷ "vocal" ∷ "voice"
    ∷ "void" ∷ "volcano" ∷ "volume" ∷ "vote" ∷ "voyage" ∷ "wage" ∷ "wagon" ∷ "wait" ∷ "walk"
    ∷ "wall" ∷ "walnut" ∷ "want" ∷ "warfare" ∷ "warm" ∷ "warrior" ∷ "wash" ∷ "wasp" ∷ "waste"
    ∷ "water" ∷ "wave" ∷ "way" ∷ "wealth" ∷ "weapon" ∷ "wear" ∷ "weasel" ∷ "weather" ∷ "web"
    ∷ "wedding" ∷ "weekend" ∷ "weird" ∷ "welcome" ∷ "west" ∷ "wet" ∷ "whale" ∷ "what" ∷ "wheat"
    ∷ "wheel" ∷ "when" ∷ "where" ∷ "whip" ∷ "whisper" ∷ "wide" ∷ "width" ∷ "wife" ∷ "wild" ∷ "will"
    ∷ "win" ∷ "window" ∷ "wine" ∷ "wing" ∷ "wink" ∷ "winner" ∷ "winter" ∷ "wire" ∷ "wisdom" ∷ "wise"
    ∷ "wish" ∷ "witness" ∷ "wolf" ∷ "woman" ∷ "wonder" ∷ "wood" ∷ "wool" ∷ "word" ∷ "work" ∷ "world"
    ∷ "worry" ∷ "worth" ∷ "wrap" ∷ "wreck" ∷ "wrestle" ∷ "wrist" ∷ "write" ∷ "wrong" ∷ "yard"
    ∷ "year" ∷ "yellow" ∷ "you" ∷ "young" ∷ "youth" ∷ "zebra" ∷ "zero" ∷ "zone" ∷ "zoo" ∷ [])
