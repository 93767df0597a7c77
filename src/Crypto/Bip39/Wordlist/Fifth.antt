-- ===== src/Crypto/Bip39/Wordlist/Fifth.antt =====
-- packages/crypto/src/bip39.ts, the words from `narrow` to `response`.
use cosmjs.Prelude.{List, ◌∷◌, [], Text, codes, map}

unfoldable pub words_9 : List Text
words_9 = map codes (
    "narrow" ∷ "nasty" ∷ "nation" ∷ "nature" ∷ "near" ∷ "neck" ∷ "need" ∷ "negative" ∷ "neglect"
    ∷ "neither" ∷ "nephew" ∷ "nerve" ∷ "nest" ∷ "net" ∷ "network" ∷ "neutral" ∷ "never" ∷ "news"
    ∷ "next" ∷ "nice" ∷ "night" ∷ "noble" ∷ "noise" ∷ "nominee" ∷ "noodle" ∷ "normal" ∷ "north"
    ∷ "nose" ∷ "notable" ∷ "note" ∷ "nothing" ∷ "notice" ∷ "novel" ∷ "now" ∷ "nuclear" ∷ "number"
    ∷ "nurse" ∷ "nut" ∷ "oak" ∷ "obey" ∷ "object" ∷ "oblige" ∷ "obscure" ∷ "observe" ∷ "obtain"
    ∷ "obvious" ∷ "occur" ∷ "ocean" ∷ "october" ∷ "odor" ∷ "off" ∷ "offer" ∷ "office" ∷ "often"
    ∷ "oil" ∷ "okay" ∷ "old" ∷ "olive" ∷ "olympic" ∷ "omit" ∷ "once" ∷ "one" ∷ "onion" ∷ "online"
    ∷ "only" ∷ "open" ∷ "opera" ∷ "opinion" ∷ "oppose" ∷ "option" ∷ "orange" ∷ "orbit" ∷ "orchard"
    ∷ "order" ∷ "ordinary" ∷ "organ" ∷ "orient" ∷ "original" ∷ "orphan" ∷ "ostrich" ∷ "other"
    ∷ "outdoor" ∷ "outer" ∷ "output" ∷ "outside" ∷ "oval" ∷ "oven" ∷ "over" ∷ "own" ∷ "owner"
    ∷ "oxygen" ∷ "oyster" ∷ "ozone" ∷ "pact" ∷ "paddle" ∷ "page" ∷ "pair" ∷ "palace" ∷ "palm"
    ∷ "panda" ∷ "panel" ∷ "panic" ∷ "panther" ∷ "paper" ∷ "parade" ∷ "parent" ∷ "park" ∷ "parrot"
    ∷ "party" ∷ "pass" ∷ "patch" ∷ "path" ∷ "patient" ∷ "patrol" ∷ "pattern" ∷ "pause" ∷ "pave"
    ∷ "payment" ∷ "peace" ∷ "peanut" ∷ "pear" ∷ "peasant" ∷ "pelican" ∷ "pen" ∷ "penalty" ∷ "pencil"
    ∷ "people" ∷ "pepper" ∷ "perfect" ∷ "permit" ∷ "person" ∷ "pet" ∷ "phone" ∷ "photo" ∷ "phrase"
    ∷ "physical" ∷ "piano" ∷ "picnic" ∷ "picture" ∷ "piece" ∷ "pig" ∷ "pigeon" ∷ "pill" ∷ "pilot"
    ∷ "pink" ∷ "pioneer" ∷ "pipe" ∷ [])

unfoldable pub words_10 : List Text
words_10 = map codes (
    "pistol" ∷ "pitch" ∷ "pizza" ∷ "place" ∷ "planet" ∷ "plastic" ∷ "plate" ∷ "play" ∷ "please"
    ∷ "pledge" ∷ "pluck" ∷ "plug" ∷ "plunge" ∷ "poem" ∷ "poet" ∷ "point" ∷ "polar" ∷ "pole"
    ∷ "police" ∷ "pond" ∷ "pony" ∷ "pool" ∷ "popular" ∷ "portion" ∷ "position" ∷ "possible" ∷ "post"
    ∷ "potato" ∷ "pottery" ∷ "poverty" ∷ "powder" ∷ "power" ∷ "practice" ∷ "praise" ∷ "predict"
    ∷ "prefer" ∷ "prepare" ∷ "present" ∷ "pretty" ∷ "prevent" ∷ "price" ∷ "pride" ∷ "primary"
    ∷ "print" ∷ "priority" ∷ "prison" ∷ "private" ∷ "prize" ∷ "problem" ∷ "process" ∷ "produce"
    ∷ "profit" ∷ "program" ∷ "project" ∷ "promote" ∷ "proof" ∷ "property" ∷ "prosper" ∷ "protect"
    ∷ "proud" ∷ "provide" ∷ "public" ∷ "pudding" ∷ "pull" ∷ "pulp" ∷ "pulse" ∷ "pumpkin" ∷ "punch"
    ∷ "pupil" ∷ "puppy" ∷ "purchase" ∷ "purity" ∷ "purpose" ∷ "purse" ∷ "push" ∷ "put" ∷ "puzzle"
    ∷ "pyramid" ∷ "quality" ∷ "quantum" ∷ "quarter" ∷ "question" ∷ "quick" ∷ "quit" ∷ "quiz"
    ∷ "quote" ∷ "rabbit" ∷ "raccoon" ∷ "race" ∷ "rack" ∷ "radar" ∷ "radio" ∷ "rail" ∷ "rain"
    ∷ "raise" ∷ "rally" ∷ "ramp" ∷ "ranch" ∷ "random" ∷ "range" ∷ "rapid" ∷ "rare" ∷ "rate"
    ∷ "rather" ∷ "raven" ∷ "raw" ∷ "razor" ∷ "ready" ∷ "real" ∷ "reason" ∷ "rebel" ∷ "rebuild"
    ∷ "recall" ∷ "receive" ∷ "recipe" ∷ "record" ∷ "recycle" ∷ "reduce" ∷ "reflect" ∷ "reform"
    ∷ "refuse" ∷ "region" ∷ "regret" ∷ "regular" ∷ "reject" ∷ "relax" ∷ "release" ∷ "relief"
    ∷ "rely" ∷ "remain" ∷ "remember" ∷ "remind" ∷ "remove" ∷ "render" ∷ "renew" ∷ "rent" ∷ "reopen"
    ∷ "repair" ∷ "repeat" ∷ "replace" ∷ "report" ∷ "require" ∷ "rescue" ∷ "resemble" ∷ "resist"
    ∷ "resource" ∷ "response" ∷ [])
