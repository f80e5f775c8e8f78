-- ===== src/Grid/Positions.antt =====
-- Rectangles of grid positions, in the order in which
-- src/callInterface/core/wciRead/extractGridData/SinglePointReader.cpp walks them, and the points
-- that a field has at a list of positions.
use wdb.Base.{
  ℕ, zero, suc, ◌+◌, ◌*◌, ◌≤◌, List, [], ◌∷◌, ◌++◌, length, length-append, Option, none, some, ℤ,
  pos, ◌+ℤ◌, Outcome, ok, ◌>>=◌, Outcome-cases, bind-eq-ok, ◌≡◌, refl, sym, arith, inl, inr,
  append_assoc, append-nil, ap, lt→ltb,
}
use wdb.Read.Store.{GridPointData}
use wdb.Grid.{GridReader, read_point}
use wdb.Grid.Single.{read_columns, read_rows}

-- `columns` positions of the row `y`, from `x` on.
abbrev pub row_positions : ℕ → ℤ → ℤ → List (ℤ × ℤ)
row_positions zero x y = []
row_positions (suc columns) x y = (x, y) ∷ row_positions columns (x +ℤ pos 1) y

abbrev pub rectangle : ℕ → ℕ → ℤ → ℤ → List (ℤ × ℤ)
rectangle columns zero x y = []
rectangle columns (suc rows) x y =
    row_positions columns x y ++ rectangle columns rows x (y +ℤ pos 1)

-- The point of a read in front of others.
abbrev pub found : Option GridPointData → List GridPointData → List GridPointData
found none points = points
found (some p) points = p ∷ points

length-found :
    (point : Option GridPointData) (points points' : List GridPointData) {n : ℕ}
    → ok (found point points) ≡ ok points'
    → length points ≤ n
    → length points' ≤ suc n
length-found none points points' e h =
    let same : points ≡ points' = cc in rw (sym same) (omega arith)
length-found (some p) points points' e h =
    let same : p ∷ points ≡ points' = cc in rw (sym same) (omega arith)

found-append :
    (point : Option GridPointData) (points more : List GridPointData)
    → found point points ++ more ≡ found point (points ++ more)
found-append none points more = refl
found-append (some p) points more = refl

module _ (r : GridReader) (data_id : ℤ) where
  -- The points at positions, without those that lie outside the grid.
  unfoldable pub read_all : List (ℤ × ℤ) → Outcome (List GridPointData)
  read_all [] = ok []
  read_all ((x, y) ∷ rest) =
      read_point r x y data_id >>= λ point. read_all rest >>= λ points. ok (found point points)

  pub length-read_all :
      (ps : List (ℤ × ℤ)) (points : List GridPointData)
      → read_all ps ≡ ok points
      → length points ≤ length ps
  unfolding read_all
  length-read_all [] points h = let e : [] ≡ points = cc in rw (sym e) (omega arith)
  length-read_all ((x, y) ∷ rest) points h =
      let (point, _, h1) = bind-eq-ok (read_point r x y data_id) _ h in
      let (points', later, h2) = bind-eq-ok (read_all rest) _ h1 in
      let bound = length-read_all rest points' later in length-found point points' points h2 bound

  pub read_all-append :
      (ps qs : List (ℤ × ℤ))
      → read_all (ps ++ qs)
        ≡ (read_all ps >>= λ points. read_all qs >>= λ more. ok (points ++ more))
  unfolding read_all
  read_all-append [] qs = elim (Outcome-cases (read_all qs)) [
    | inl (more, h) ↦ rw h refl
    | inr (f, h) ↦ rw h refl
  ]
  read_all-append ((x, y) ∷ rest) qs = elim (Outcome-cases (read_point r x y data_id)) [
    | inr (f, h) ↦ rw h refl
    | inl (point, h) ↦
        rw (h, read_all-append rest qs)
          (elim (Outcome-cases (read_all rest)) [
            | inr (f, g) ↦ rw g refl
            | inl (points, g) ↦ rw g (elim (Outcome-cases (read_all qs)) [
              | inr (f, k) ↦ rw k refl
              | inl (more, k) ↦ rw (k, found-append point points more) refl
            ])
          ])
  ]

  read_columns-read_all :
      (size left : ℕ) (x y : ℤ) (out : List GridPointData)
      → length out + left ≤ size
      → read_columns r data_id size left x y out
        ≡ (read_all (row_positions left x y) >>= λ points. ok (out ++ points))
  unfolding read_columns read_all
  read_columns-read_all size zero x y out room = rw (append-nil out) refl
  read_columns-read_all size (suc left) x y out room =
      elim (Outcome-cases (read_point r x y data_id)) [
        | inr (f, h) ↦ rw h refl
        | inl (none, h) ↦ rw h (
            rw (read_columns-read_all size left (x +ℤ pos 1) y out (omega arith))
              (elim (Outcome-cases (read_all (row_positions left (x +ℤ pos 1) y))) [
                | inr (f, g) ↦ rw g refl
                | inl (points, g) ↦ rw g refl
              ]))
        | inl (some p, h) ↦ rw h (
            rw (lt→ltb (length out) size (omega arith), ◌>>=◌)
              (rw
                (read_columns-read_all size left (x +ℤ pos 1) y (out ++ p ∷ [])
                  (omega (arith, length-append out (p ∷ []))))
                (elim (Outcome-cases (read_all (row_positions left (x +ℤ pos 1) y))) [
                  | inr (f, g) ↦ rw g refl
                  | inl (points, g) ↦ rw (g, append_assoc out (p ∷ []) points) refl
                ])))
      ]

  length-row_positions : (columns : ℕ) (x y : ℤ) → length (row_positions columns x y) ≡ columns
  length-row_positions zero x y = refl
  length-row_positions (suc columns) x y = ap suc (length-row_positions columns (x +ℤ pos 1) y)

  pub read_rows-read_all :
      (size columns rows : ℕ) (x y : ℤ) (out : List GridPointData)
      → length out + rows * columns ≤ size
      → read_rows r data_id size columns rows x y out
        ≡ (read_all (rectangle columns rows x y) >>= λ points. ok (out ++ points))
  unfolding read_rows read_all
  read_rows-read_all size columns zero x y out room = rw (append-nil out) refl
  read_rows-read_all size columns (suc rows) x y out room =
      rw
        (
          read_columns-read_all size columns x y out (grind arith),
          read_all-append (row_positions columns x y) (rectangle columns rows x (y +ℤ pos 1)),
        )
        (elim (Outcome-cases (read_all (row_positions columns x y))) [
          | inr (f, g) ↦ rw g refl
          | inl (points, g) ↦ rw g (
              let bound = length-read_all (row_positions columns x y) points g in
              let here = length-row_positions columns x y in
              rw
                (read_rows-read_all size columns rows x (y +ℤ pos 1) (out ++ points)
                  (grind (arith, length-append out points)))
                (elim (Outcome-cases (read_all (rectangle columns rows x (y +ℤ pos 1)))) [
                  | inr (f, k) ↦ rw k refl
                  | inl (more, k) ↦ rw (k, append_assoc out points more) refl
                ]))
        ])
