-- ===== src/Crypto/Bip39/Wordlist.antt =====
-- packages/crypto/src/bip39.ts, the list of words.
pub mod First
pub mod Second
pub mod Third
pub mod Fourth
pub mod Fifth
pub mod Sixth
pub mod Seventh
use cosmjs.Prelude.{List, ◌++◌, Text}
use cosmjs.Crypto.Bip39.Wordlist.First.{words_1, words_2}
use cosmjs.Crypto.Bip39.Wordlist.Second.{words_3, words_4}
use cosmjs.Crypto.Bip39.Wordlist.Third.{words_5, words_6}
use cosmjs.Crypto.Bip39.Wordlist.Fourth.{words_7, words_8}
use cosmjs.Crypto.Bip39.Wordlist.Fifth.{words_9, words_10}
use cosmjs.Crypto.Bip39.Wordlist.Sixth.{words_11, words_12}
use cosmjs.Crypto.Bip39.Wordlist.Seventh.{words_13, words_14}

unfoldable pub wordlist : List Text
unfolding words_1 words_2 words_3 words_4 words_5 words_6 words_7 words_8 words_9 words_10 words_11
    words_12 words_13 words_14
wordlist =
    words_1
    ++ (words_2
        ++ (words_3
            ++ (words_4
                ++ (words_5
                    ++ (words_6
                        ++ (words_7
                            ++ (words_8
                                ++ (words_9
                                    ++ (words_10
                                        ++ (words_11
                                            ++ (words_12 ++ (words_13 ++ (words_14)))))))))))))
