-- ===== src/Crypto/Bip39/Wordlist/Third.antt =====
-- packages/crypto/src/bip39.ts, the words from `end` to `hotel`.
use cosmjs.Prelude.{List, ◌∷◌, [], Text, codes, map}

unfoldable pub words_5 : List Text
words_5 = map codes (
    "end" ∷ "endless" ∷ "endorse" ∷ "enemy" ∷ "energy" ∷ "enforce" ∷ "engage" ∷ "engine" ∷ "enhance"
    ∷ "enjoy" ∷ "enlist" ∷ "enough" ∷ "enrich" ∷ "enroll" ∷ "ensure" ∷ "enter" ∷ "entire" ∷ "entry"
    ∷ "envelope" ∷ "episode" ∷ "equal" ∷ "equip" ∷ "era" ∷ "erase" ∷ "erode" ∷ "erosion" ∷ "error"
    ∷ "erupt" ∷ "escape" ∷ "essay" ∷ "essence" ∷ "estate" ∷ "eternal" ∷ "ethics" ∷ "evidence"
    ∷ "evil" ∷ "evoke" ∷ "evolve" ∷ "exact" ∷ "example" ∷ "excess" ∷ "exchange" ∷ "excite"
    ∷ "exclude" ∷ "excuse" ∷ "execute" ∷ "exercise" ∷ "exhaust" ∷ "exhibit" ∷ "exile" ∷ "exist"
    ∷ "exit" ∷ "exotic" ∷ "expand" ∷ "expect" ∷ "expire" ∷ "explain" ∷ "expose" ∷ "express"
    ∷ "extend" ∷ "extra" ∷ "eye" ∷ "eyebrow" ∷ "fabric" ∷ "face" ∷ "faculty" ∷ "fade" ∷ "faint"
    ∷ "faith" ∷ "fall" ∷ "false" ∷ "fame" ∷ "family" ∷ "famous" ∷ "fan" ∷ "fancy" ∷ "fantasy"
    ∷ "farm" ∷ "fashion" ∷ "fat" ∷ "fatal" ∷ "father" ∷ "fatigue" ∷ "fault" ∷ "favorite" ∷ "feature"
    ∷ "february" ∷ "federal" ∷ "fee" ∷ "feed" ∷ "feel" ∷ "female" ∷ "fence" ∷ "festival" ∷ "fetch"
    ∷ "fever" ∷ "few" ∷ "fiber" ∷ "fiction" ∷ "field" ∷ "figure" ∷ "file" ∷ "film" ∷ "filter"
    ∷ "final" ∷ "find" ∷ "fine" ∷ "finger" ∷ "finish" ∷ "fire" ∷ "firm" ∷ "first" ∷ "fiscal"
    ∷ "fish" ∷ "fit" ∷ "fitness" ∷ "fix" ∷ "flag" ∷ "flame" ∷ "flash" ∷ "flat" ∷ "flavor" ∷ "flee"
    ∷ "flight" ∷ "flip" ∷ "float" ∷ "flock" ∷ "floor" ∷ "flower" ∷ "fluid" ∷ "flush" ∷ "fly"
    ∷ "foam" ∷ "focus" ∷ "fog" ∷ "foil" ∷ "fold" ∷ "follow" ∷ "food" ∷ "foot" ∷ "force" ∷ "forest"
    ∷ "forget" ∷ "fork" ∷ "fortune" ∷ "forum" ∷ "forward" ∷ [])

unfoldable pub words_6 : List Text
words_6 = map codes (
    "fossil" ∷ "foster" ∷ "found" ∷ "fox" ∷ "fragile" ∷ "frame" ∷ "frequent" ∷ "fresh" ∷ "friend"
    ∷ "fringe" ∷ "frog" ∷ "front" ∷ "frost" ∷ "frown" ∷ "frozen" ∷ "fruit" ∷ "fuel" ∷ "fun"
    ∷ "funny" ∷ "furnace" ∷ "fury" ∷ "future" ∷ "gadget" ∷ "gain" ∷ "galaxy" ∷ "gallery" ∷ "game"
    ∷ "gap" ∷ "garage" ∷ "garbage" ∷ "garden" ∷ "garlic" ∷ "garment" ∷ "gas" ∷ "gasp" ∷ "gate"
    ∷ "gather" ∷ "gauge" ∷ "gaze" ∷ "general" ∷ "genius" ∷ "genre" ∷ "gentle" ∷ "genuine"
    ∷ "gesture" ∷ "ghost" ∷ "giant" ∷ "gift" ∷ "giggle" ∷ "ginger" ∷ "giraffe" ∷ "girl" ∷ "give"
    ∷ "glad" ∷ "glance" ∷ "glare" ∷ "glass" ∷ "glide" ∷ "glimpse" ∷ "globe" ∷ "gloom" ∷ "glory"
    ∷ "glove" ∷ "glow" ∷ "glue" ∷ "goat" ∷ "goddess" ∷ "gold" ∷ "good" ∷ "goose" ∷ "gorilla"
    ∷ "gospel" ∷ "gossip" ∷ "govern" ∷ "gown" ∷ "grab" ∷ "grace" ∷ "grain" ∷ "grant" ∷ "grape"
    ∷ "grass" ∷ "gravity" ∷ "great" ∷ "green" ∷ "grid" ∷ "grief" ∷ "grit" ∷ "grocery" ∷ "group"
    ∷ "grow" ∷ "grunt" ∷ "guard" ∷ "guess" ∷ "guide" ∷ "guilt" ∷ "guitar" ∷ "gun" ∷ "gym" ∷ "habit"
    ∷ "hair" ∷ "half" ∷ "hammer" ∷ "hamster" ∷ "hand" ∷ "happy" ∷ "harbor" ∷ "hard" ∷ "harsh"
    ∷ "harvest" ∷ "hat" ∷ "have" ∷ "hawk" ∷ "hazard" ∷ "head" ∷ "health" ∷ "heart" ∷ "heavy"
    ∷ "hedgehog" ∷ "height" ∷ "hello" ∷ "helmet" ∷ "help" ∷ "hen" ∷ "hero" ∷ "hidden" ∷ "high"
    ∷ "hill" ∷ "hint" ∷ "hip" ∷ "hire" ∷ "history" ∷ "hobby" ∷ "hockey" ∷ "hold" ∷ "hole"
    ∷ "holiday" ∷ "hollow" ∷ "home" ∷ "honey" ∷ "hood" ∷ "hope" ∷ "horn" ∷ "horror" ∷ "horse"
    ∷ "hospital" ∷ "host" ∷ "hotel" ∷ [])
