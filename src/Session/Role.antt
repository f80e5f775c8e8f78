-- ===== src/Session/Role.antt =====
-- Which command `wciSession_setRole` executes.
use wdb.Base.{
  ℕ, zero, suc, ◌≤◌, Bool, true, ◌&&◌, ◌||◌, leb, ◌==◌, [], ◌∷◌, ◌++◌, ◌≡◌, refl, ap, arith,
  Bool-cases, inl, inr, Bytes, codes, length, length-append, take, All, All-append, some, ok,
}
use wdb.Session.{session_set_role}

abbrev is_letter : ℕ → Bool
is_letter c = leb b'a' c && leb c b'z' || leb b'A' c && leb c b'Z' || c == b'_'

abbrev is_word : ℕ → Bool
is_word c = is_letter c || leb b'0' c && leb c b'9'

-- What the expression "[a-zA-Z_][a-zA-Z_0-9]*" matches.
abbrev IsRoleName : Bytes → Type 0
IsRoleName [] = ⊥
IsRoleName (c ∷ s) = (is_letter c ≡ true) × All (λ d. is_word d ≡ true) s

-- A byte that neither quotes nor comments in SQL.
abbrev is_plain : ℕ → Bool
is_plain c = is_word c || c == b' ' || c == b';'

abbrev pub AllPlain : Bytes → Type 0
AllPlain = All (λ c. is_plain c ≡ true)

take-all : (n : ℕ) (s : Bytes) → length s ≤ n → take n s ≡ s
take-all zero [] h = refl
take-all zero (c ∷ s) h = absurd (omega arith)
take-all (suc n) [] h = refl
take-all (suc n) (c ∷ s) h = rw (take-all n s (omega arith))

take-AllPlain : (n : ℕ) (s : Bytes) → AllPlain s → AllPlain (take n s)
take-AllPlain zero s h = tt
take-AllPlain (suc n) [] h = tt
take-AllPlain (suc n) (c ∷ s) (hc, hs) = (hc, take-AllPlain n s hs)

word-plain : (s : Bytes) → All (λ d. is_word d ≡ true) s → AllPlain s
word-plain [] h = tt
word-plain (c ∷ s) (hc, hs) = (ground arith, word-plain s hs)

role-plain : (s : Bytes) → IsRoleName s → AllPlain s
role-plain [] h = absurd h
role-plain (c ∷ s) (hc, hs) = (ground arith, word-plain s hs)

command-AllPlain :
    (role : Bytes) → IsRoleName role → AllPlain (codes "SET ROLE " ++ (role ++ codes ";"))
command-AllPlain role h =
    All-append _ (codes "SET ROLE ") (role ++ codes ";") (ground arith)
      (All-append _ role (codes ";") (role-plain role h) (ground arith))

-- Whatever role is accepted, the command that is executed has only letters, digits, underscores,
-- blanks and semicolons.
pub session_set_role-AllPlain :
    (match_role : Bytes → Bool) (role command : Bytes)
    → (match_role role ≡ true → IsRoleName role)
    → session_set_role match_role true (some role) ≡ ok command
    → AllPlain command
unfolding session_set_role
session_set_role-AllPlain match_role role command names e = elim (Bool-cases (match_role role)) [
  | inl yes_role ↦
      let e' : command ≡ take 127 (codes "SET ROLE " ++ (role ++ codes ";")) = ground arith in
      rw e' (
        take-AllPlain 127 (codes "SET ROLE " ++ (role ++ codes ";"))
          (command-AllPlain role (names yes_role)))
  | inr no_role ↦ ground arith
]

-- For an accepted role of at most 117 bytes the command that is executed sets that role.
session_set_role-fits :
    (match_role : Bytes → Bool) (role : Bytes)
    → match_role role ≡ true
    → length role ≤ 117
    → session_set_role match_role true (some role) ≡ ok (codes "SET ROLE " ++ (role ++ codes ";"))
unfolding session_set_role
session_set_role-fits match_role role m h = rw m (
    ap ok (
      take-all 127 (codes "SET ROLE " ++ (role ++ codes ";"))
        (omega (arith, length-append {0} role (codes ";")))))
