-- ===== src/Grid/Corners.antt =====
-- The corners of a grid, src/common/projection/GridGeometry.cpp, by their columns and rows.
use wdb.Base.{
  ℕ, ◌+◌, ◌-◌, ◌*◌, ◌%◌, ◌<◌, ◌≤◌, lt→ltb, true, List, [], ◌∷◌, none, some, pos, Outcome, ok,
  Outcome-cases, Option-cases, ◌>>=◌, ◌≡◌, refl, arith, Bytes, Bool-cases, inl, inr,
}
use wdb.Grid.{to_int, index_from_xy}
use wdb.Grid.Doubles.{Doubles}
use wdb.Grid.Projection.{Point, Proj}
use wdb.Grid.Index.{x_y_from_index-index_from_xy}
use wdb.Grid.Geometry.{
  GridGeometry, Corner, same_corner, upper_left, upper_right, lower_left, lower_right, last,
  get_index, lon_lat_from_index, find_corner, point, project_,
}

-- The column and the row of a corner.
abbrev pub column : Corner → ℕ → ℕ
column upper_left x_number = 0
column upper_right x_number = x_number - 1
column lower_left x_number = 0
column lower_right x_number = x_number - 1

abbrev pub row : Corner → ℕ → ℕ
row upper_left y_number = y_number - 1
row upper_right y_number = y_number - 1
row lower_left y_number = 0
row lower_right y_number = 0

last-pos : (n : ℕ) → 1 ≤ n → n ≤ 2147483648 → last n ≡ pos (n - 1)
unfolding to_int
last-pos n h h' =
    let e : (n + 4294967295) % 4294967296 ≡ n - 1 = omega arith in
    rw (e, lt→ltb (n - 1) 2147483648 (omega arith)) refl

column-below : (c : Corner) (n : ℕ) → 1 ≤ n → column c n < n
column-below upper_left n h = h
column-below upper_right n h = omega arith
column-below lower_left n h = h
column-below lower_right n h = omega arith

row-below : (c : Corner) (n : ℕ) → 1 ≤ n → row c n < n
row-below upper_left n h = omega arith
row-below upper_right n h = omega arith
row-below lower_left n h = h
row-below lower_right n h = h

factor_bound : (n m : ℕ) → 1 ≤ m → n * m ≤ 2147483648 → n ≤ 2147483648
factor_bound n m h h' = grind arith

same_corner-eq : (c k : Corner) → same_corner c k ≡ true → c ≡ k
same_corner-eq upper_left upper_left h = refl
same_corner-eq upper_right upper_right h = refl
same_corner-eq lower_left lower_left h = refl
same_corner-eq lower_right lower_right h = refl
same_corner-eq _ _ h = cc

ok_same : {A : Type 0} {a b : A} → some a ≡ some b → ok a ≡ ok b
ok_same h = cc

module _ (d : Doubles) (proj : Proj d) (default_projection : Bytes) where
  get_index-corner :
      (c : Corner) (g : GridGeometry d)
      → 1 ≤ g.x_number_
      → 1 ≤ g.y_number_
      → g.x_number_ * g.y_number_ ≤ 2147483648
      → get_index d proj default_projection c g
        ≡ index_from_xy (pos (column c g.x_number_)) (pos (row c g.y_number_)) g.x_number_
  unfolding get_index
  get_index-corner upper_left g p q small =
      rw (last-pos g.y_number_ q (factor_bound g.y_number_ g.x_number_ p (grind arith))) refl
  get_index-corner upper_right g p q small =
      rw
        (
          last-pos g.x_number_ p (factor_bound g.x_number_ g.y_number_ q small),
          last-pos g.y_number_ q (factor_bound g.y_number_ g.x_number_ p (grind arith)),
        )
        refl
  get_index-corner lower_left g p q small = refl
  get_index-corner lower_right g p q small =
      rw (last-pos g.x_number_ p (factor_bound g.x_number_ g.y_number_ q small)) refl

  -- The place of a corner, without the corners that are kept.
  abbrev pub place_of : GridGeometry d → Corner → Outcome (Point d)
  place_of g c =
      lon_lat_from_index d proj default_projection g (pos (column c g.x_number_))
        (pos (row c g.y_number_))

  -- Every corner that is kept is the one that would be found.
  abbrev IsTrue : GridGeometry d → List (Corner × Point d) → Type 0
  IsTrue g corners =
      (c : Corner) (p : Point d)
      → find_corner d proj default_projection c corners ≡ some p
      → place_of g c ≡ ok p

  -- Calls of `point` in a row, up to the first that throws.
  abbrev pub points_of : List Corner → GridGeometry d → Outcome (List (Point d))
  points_of [] g = ok []
  points_of (c ∷ cs) g = point d proj default_projection c g >>= λ (at, g').
      points_of cs g' >>= λ points. ok (at ∷ points)

  abbrev pub places_of : GridGeometry d → List Corner → Outcome (List (Point d))
  places_of g [] = ok []
  places_of g (c ∷ cs) = place_of g c >>= λ at. places_of g cs >>= λ points. ok (at ∷ points)

  module _ (g : GridGeometry d) (p : 1 ≤ g.x_number_) (q : 1 ≤ g.y_number_)
      (small : g.x_number_ * g.y_number_ ≤ 2147483648) where
    abbrev with_corners : List (Corner × Point d) → GridGeometry d
    with_corners corners = record g { corners_ = corners }

    point-place_of :
        (c : Corner) (corners : List (Corner × Point d))
        → find_corner d proj default_projection c corners ≡ none
        → point d proj default_projection c (with_corners corners)
          ≡ (place_of g c >>= λ at. ok (at, with_corners ((c, at) ∷ corners)))
    unfolding point lon_lat_from_index project_
    point-place_of c corners fresh =
        let (i, e, below, ex, ey) =
          x_y_from_index-index_from_xy (column c g.x_number_) (row c g.y_number_) g.x_number_
            g.y_number_ (column-below c g.x_number_ p) (row-below c g.y_number_ q) small in
        let corner = get_index-corner c (with_corners corners) p q small in
        rw (point, fresh, corner, e, ex, ey) refl

    add-IsTrue :
        (c : Corner) (at : Point d) (corners : List (Corner × Point d))
        → IsTrue g corners
        → place_of g c ≡ ok at
        → IsTrue g ((c, at) ∷ corners)
    unfolding find_corner
    add-IsTrue c at corners sound new k found h = elim (Bool-cases (same_corner c k)) [
      | inl e ↦
          let same : some at ≡ some found = rw e at h in
          let one : c ≡ k = same_corner-eq c k e in rw (← one, new) (ok_same same)
      | inr e ↦ sound k found (rw e at h)
    ]

    points_of-places_of :
        (cs : List Corner) (corners : List (Corner × Point d))
        → IsTrue g corners
        → points_of cs (with_corners corners) ≡ places_of g cs
    unfolding point
    points_of-places_of [] corners sound = refl
    points_of-places_of (c ∷ cs) corners sound =
        elim (Option-cases (find_corner d proj default_projection c corners)) [
          | inr (at, e) ↦ rw (point, e, sound c at e, points_of-places_of cs corners sound) refl
          | inl e ↦ elim (Outcome-cases (place_of g c)) [
            | inr (f, h) ↦ rw (point-place_of c corners e, h) refl
            | inl (at, h) ↦
                let added = add-IsTrue c at corners sound h in
                rw (point-place_of c corners e, h, points_of-places_of cs ((c, at) ∷ corners) added)
                  refl
          ]
        ]

  -- For a grid with at least one column and row and at most 2^31 points, of which no corner is kept
  -- yet, any sequence of corners is answered, or ended by an error, as by the places of the grid
  -- points in the first or last column and the first or last row, whatever is kept on the way. The
  -- upper corners are those of the last row in every orientation.
  pub point-corner :
      (g : GridGeometry d) (cs : List Corner)
      → 1 ≤ g.x_number_
      → 1 ≤ g.y_number_
      → g.x_number_ * g.y_number_ ≤ 2147483648
      → g.corners_ ≡ []
      → points_of cs g ≡ places_of g cs
  unfolding find_corner
  point-corner g cs p q small fresh =
      let none_kept : IsTrue g g.corners_ =
        λ c at e. (let impossible : none ≡ some at = rw fresh at e in cc) in
      points_of-places_of g p q small cs g.corners_ none_kept
