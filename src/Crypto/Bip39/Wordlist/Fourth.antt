-- ===== src/Crypto/Bip39/Wordlist/Fourth.antt =====
-- packages/crypto/src/bip39.ts, the words from `hour` to `napkin`.
use cosmjs.Prelude.{List, ◌∷◌, [], Text, codes, map}

unfoldable pub words_7 : List Text
words_7 = map codes (
    "hour" ∷ "hover" ∷ "hub" ∷ "huge" ∷ "human" ∷ "humble" ∷ "humor" ∷ "hundred" ∷ "hungry" ∷ "hunt"
    ∷ "hurdle" ∷ "hurry" ∷ "hurt" ∷ "husband" ∷ "hybrid" ∷ "ice" ∷ "icon" ∷ "idea" ∷ "identify"
    ∷ "idle" ∷ "ignore" ∷ "ill" ∷ "illegal" ∷ "illness" ∷ "image" ∷ "imitate" ∷ "immense" ∷ "immune"
    ∷ "impact" ∷ "impose" ∷ "improve" ∷ "impulse" ∷ "inch" ∷ "include" ∷ "income" ∷ "increase"
    ∷ "index" ∷ "indicate" ∷ "indoor" ∷ "industry" ∷ "infant" ∷ "inflict" ∷ "inform" ∷ "inhale"
    ∷ "inherit" ∷ "initial" ∷ "inject" ∷ "injury" ∷ "inmate" ∷ "inner" ∷ "innocent" ∷ "input"
    ∷ "inquiry" ∷ "insane" ∷ "insect" ∷ "inside" ∷ "inspire" ∷ "install" ∷ "intact" ∷ "interest"
    ∷ "into" ∷ "invest" ∷ "invite" ∷ "involve" ∷ "iron" ∷ "island" ∷ "isolate" ∷ "issue" ∷ "item"
    ∷ "ivory" ∷ "jacket" ∷ "jaguar" ∷ "jar" ∷ "jazz" ∷ "jealous" ∷ "jeans" ∷ "jelly" ∷ "jewel"
    ∷ "job" ∷ "join" ∷ "joke" ∷ "journey" ∷ "joy" ∷ "judge" ∷ "juice" ∷ "jump" ∷ "jungle" ∷ "junior"
    ∷ "junk" ∷ "just" ∷ "kangaroo" ∷ "keen" ∷ "keep" ∷ "ketchup" ∷ "key" ∷ "kick" ∷ "kid" ∷ "kidney"
    ∷ "kind" ∷ "kingdom" ∷ "kiss" ∷ "kit" ∷ "kitchen" ∷ "kite" ∷ "kitten" ∷ "kiwi" ∷ "knee"
    ∷ "knife" ∷ "knock" ∷ "know" ∷ "lab" ∷ "label" ∷ "labor" ∷ "ladder" ∷ "lady" ∷ "lake" ∷ "lamp"
    ∷ "language" ∷ "laptop" ∷ "large" ∷ "later" ∷ "latin" ∷ "laugh" ∷ "laundry" ∷ "lava" ∷ "law"
    ∷ "lawn" ∷ "lawsuit" ∷ "layer" ∷ "lazy" ∷ "leader" ∷ "leaf" ∷ "learn" ∷ "leave" ∷ "lecture"
    ∷ "left" ∷ "leg" ∷ "legal" ∷ "legend" ∷ "leisure" ∷ "lemon" ∷ "lend" ∷ "length" ∷ "lens"
    ∷ "leopard" ∷ "lesson" ∷ "letter" ∷ [])

unfoldable pub words_8 : List Text
words_8 = map codes (
    "level" ∷ "liar" ∷ "liberty" ∷ "library" ∷ "license" ∷ "life" ∷ "lift" ∷ "light" ∷ "like"
    ∷ "limb" ∷ "limit" ∷ "link" ∷ "lion" ∷ "liquid" ∷ "list" ∷ "little" ∷ "live" ∷ "lizard" ∷ "load"
    ∷ "loan" ∷ "lobster" ∷ "local" ∷ "lock" ∷ "logic" ∷ "lonely" ∷ "long" ∷ "loop" ∷ "lottery"
    ∷ "loud" ∷ "lounge" ∷ "love" ∷ "loyal" ∷ "lucky" ∷ "luggage" ∷ "lumber" ∷ "lunar" ∷ "lunch"
    ∷ "luxury" ∷ "lyrics" ∷ "machine" ∷ "mad" ∷ "magic" ∷ "magnet" ∷ "maid" ∷ "mail" ∷ "main"
    ∷ "major" ∷ "make" ∷ "mammal" ∷ "man" ∷ "manage" ∷ "mandate" ∷ "mango" ∷ "mansion" ∷ "manual"
    ∷ "maple" ∷ "marble" ∷ "march" ∷ "margin" ∷ "marine" ∷ "market" ∷ "marriage" ∷ "mask" ∷ "mass"
    ∷ "master" ∷ "match" ∷ "material" ∷ "math" ∷ "matrix" ∷ "matter" ∷ "maximum" ∷ "maze" ∷ "meadow"
    ∷ "mean" ∷ "measure" ∷ "meat" ∷ "mechanic" ∷ "medal" ∷ "media" ∷ "melody" ∷ "melt" ∷ "member"
    ∷ "memory" ∷ "mention" ∷ "menu" ∷ "mercy" ∷ "merge" ∷ "merit" ∷ "merry" ∷ "mesh" ∷ "message"
    ∷ "metal" ∷ "method" ∷ "middle" ∷ "midnight" ∷ "milk" ∷ "million" ∷ "mimic" ∷ "mind" ∷ "minimum"
    ∷ "minor" ∷ "minute" ∷ "miracle" ∷ "mirror" ∷ "misery" ∷ "miss" ∷ "mistake" ∷ "mix" ∷ "mixed"
    ∷ "mixture" ∷ "mobile" ∷ "model" ∷ "modify" ∷ "mom" ∷ "moment" ∷ "monitor" ∷ "monkey"
    ∷ "monster" ∷ "month" ∷ "moon" ∷ "moral" ∷ "more" ∷ "morning" ∷ "mosquito" ∷ "mother" ∷ "motion"
    ∷ "motor" ∷ "mountain" ∷ "mouse" ∷ "move" ∷ "movie" ∷ "much" ∷ "muffin" ∷ "mule" ∷ "multiply"
    ∷ "muscle" ∷ "museum" ∷ "mushroom" ∷ "music" ∷ "must" ∷ "mutual" ∷ "myself" ∷ "mystery" ∷ "myth"
    ∷ "naive" ∷ "name" ∷ "napkin" ∷ [])
