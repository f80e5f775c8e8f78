-- ===== src/Config/File/Spaces.antt =====
-- src/common/configuration/WdbConfigFile.cpp: the spaces of a line.
use wdb.Base.{
  ℕ, Bool, true, false, ◌&&◌, List, [], ◌∷◌, ◌++◌, append-nil, Bytes, ◌==◌, ◌≡◌, refl,
  if◌then◌else◌, All,
}
use wdb.Admin.Words.Documents.{is_space, trimmed}
use wdb.Admin.Words.RoundTrip.{IsWord, unwords}
use wdb.Config.File.{FileBoost, up_to, behind}

-- Every run of spaces is one blank; `inside` tells that the byte before was a space.
unfoldable pub squeezed : (inside : Bool) → Bytes → Bytes
squeezed inside [] = []
squeezed inside (c ∷ s) =
    let after = squeezed true s in
    let next = squeezed false s in
    if is_space c then (if inside then after else 32 ∷ after) else c ∷ next

abbrev pub starts_with_comma : Bytes → Bool
starts_with_comma [] = false
starts_with_comma (c ∷ s) = c == 44

-- The spaces in front of a comma are gone.
unfoldable pub tightened : Bytes → Bytes
tightened [] = []
tightened (c ∷ s) =
    let rest = tightened s in if is_space c && starts_with_comma rest then rest else c ∷ rest

-- What Boost documents of the replacements and of `trim`.
pub record FileDocuments (boost : FileBoost) : Type 0 where
  pub spaces : (s : Bytes) → boost.one_space s ≡ squeezed false s
  pub commas : (s : Bytes) → boost.before_comma s ≡ tightened s
  pub trims : (s : Bytes) → boost.trim s ≡ trimmed s

abbrev pub Lacks : ℕ → Bytes → Type 0
Lacks c = All (λ x. (x == c) ≡ false)

-- A word that a space may stand in front of.
abbrev pub IsPart : Bytes → Type 0
IsPart w = IsWord w × (starts_with_comma w ≡ false)

pub up_to-Lacks : (c : ℕ) (s t : Bytes) → Lacks c s → up_to c (s ++ t) ≡ s ++ up_to c t
unfolding up_to
up_to-Lacks c [] t h = refl
up_to-Lacks c (x ∷ s) t (hx, h) = rw (hx, up_to-Lacks c s t h)

pub behind-Lacks : (c : ℕ) (s t : Bytes) → Lacks c s → behind c (s ++ t) ≡ behind c t
unfolding behind
behind-Lacks c [] t h = refl
behind-Lacks c (x ∷ s) t (hx, h) = rw (hx, behind-Lacks c s t h)

squeezed-nil : squeezed false [] ≡ []
unfolding squeezed
squeezed-nil = refl

squeezed-blank : (s : Bytes) → squeezed false (32 ∷ s) ≡ 32 ∷ squeezed true s
unfolding squeezed is_space
squeezed-blank s = refl

squeezed-word : (s t : Bytes) → IsWord s → (b : Bool) → squeezed b (s ++ t) ≡ s ++ squeezed false t
unfolding squeezed
squeezed-word [] t (n, h) b = cc
squeezed-word (c ∷ []) t (n, (hc, h)) b = rw hc
squeezed-word (c ∷ d ∷ s) t (n, (hc, h)) b = rw (hc, squeezed-word (d ∷ s) t (refl, h) false)

pub squeezed-unwords :
    (w : Bytes) (ws : List Bytes)
    → IsWord w
    → All IsWord ws
    → (b : Bool) → squeezed b (unwords w ws) ≡ unwords w ws
squeezed-unwords w [] h hs b =
    let e = squeezed-word w [] h b in
    let blank : squeezed false [] ≡ [] = squeezed-nil in rw (append-nil w, blank, append-nil w) at e
squeezed-unwords w (v ∷ ws) h (hv, hs) b = rw (
  squeezed-word w (32 ∷ unwords v ws) h b,
  squeezed-blank (unwords v ws),
  squeezed-unwords v ws hv hs true,
)

tightened-solid :
    (s t : Bytes) → All (λ c. is_space c ≡ false) s → tightened (s ++ t) ≡ s ++ tightened t
unfolding tightened
tightened-solid [] t h = refl
tightened-solid (c ∷ s) t (hc, h) = rw (hc, tightened-solid s t h)

starts_with_comma-unwords :
    (w : Bytes) (ws : List Bytes) → IsPart w → starts_with_comma (unwords w ws) ≡ false
starts_with_comma-unwords w [] (h, k) = k
starts_with_comma-unwords [] (v ∷ ws) (h, k) = refl
starts_with_comma-unwords (c ∷ w) (v ∷ ws) (h, k) = k

tightened-blank :
    (s : Bytes) → starts_with_comma (tightened s) ≡ false → tightened (32 ∷ s) ≡ 32 ∷ tightened s
unfolding tightened is_space
tightened-blank s h = rw h

pub parts_are_words : (ws : List Bytes) → All IsPart ws → All IsWord ws
parts_are_words [] h = tt
parts_are_words (w ∷ ws) (h, hs) = (h.0, parts_are_words ws hs)

pub equals-IsPart : IsPart (61 ∷ [])
unfolding is_space
equals-IsPart = ((refl, (refl, tt)), refl)

pub tightened-unwords :
    (w : Bytes) (ws : List Bytes)
    → IsWord w
    → All IsPart ws
    → tightened (unwords w ws) ≡ unwords w ws
unfolding tightened
tightened-unwords w [] h hs = let e = tightened-solid w [] h.1 in rw (append-nil w) at e
tightened-unwords w (v ∷ ws) h (hv, hs) =
    let rest = tightened-unwords v ws hv.0 hs in
    let k : starts_with_comma (tightened (unwords v ws)) ≡ false =
      rw rest (starts_with_comma-unwords v ws hv) in
    rw (tightened-solid w (32 ∷ unwords v ws) h.1, tightened-blank (unwords v ws) k, rest)
