-- ===== src/Glob/Tests.antt =====
-- The matcher of wedb_pubsub/src/glob.rs at concrete patterns and keys.
use garnet_rust.Common.{ℕ, ◌≡◌, refl, List, [], ◌∷◌, some, true, false}
use garnet_rust.Glob.{glob_match}
use garnet_rust.Glob.Relation.{Matches}
use garnet_rust.Glob.Decides.{Answers, glob_match-Answers}

-- h*[a-c]o
abbrev pattern_hello : List ℕ
pattern_hello = 104 ∷ 42 ∷ 91 ∷ 97 ∷ 45 ∷ 99 ∷ 93 ∷ 111 ∷ []

-- hello bo
abbrev key_hello : List ℕ
key_hello = 104 ∷ 101 ∷ 108 ∷ 108 ∷ 111 ∷ 32 ∷ 98 ∷ 111 ∷ []

-- The same with a capital B, which only `match_glob_nocase` takes.
abbrev key_capital : List ℕ
key_capital = 104 ∷ 101 ∷ 108 ∷ 108 ∷ 111 ∷ 32 ∷ 66 ∷ 111 ∷ []

hello_matches : glob_match pattern_hello key_hello false ≡ some true
unfolding glob_match
hello_matches = refl

capital_mismatch : glob_match pattern_hello key_capital false ≡ some false
unfolding glob_match
capital_mismatch = refl

capital_matches : glob_match pattern_hello key_capital true ≡ some true
unfolding glob_match
capital_matches = refl

glob_match-Answers_example :
    Answers (Matches false pattern_hello key_hello) (glob_match pattern_hello key_hello false)
glob_match-Answers_example = glob_match-Answers pattern_hello key_hello false
