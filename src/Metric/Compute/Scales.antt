-- ===== src/Metric/Compute/Scales.antt =====
-- How many scales an image has.
use ssimulacra2_vulcan.Common.{ℕ, zero, suc, ◌≡◌, refl, ◌||◌, arith, ltb, if◌then◌else◌, min, ◌≤◌}
use ssimulacra2_vulcan.Metric.Pixels.{scaled}

-- The rounds that the loop still makes, where it checks an image of this size before it halves it.
unfoldable pub passes : ℕ → ℕ → ℕ → ℕ
passes zero xs ys = 0
passes (suc n) xs ys =
    if ltb xs 8 || ltb ys 8 then 0 else suc (passes n (scaled xs 2) (scaled ys 2))

-- The number of scales by the shorter side: an image is halved as long as it has 8 rows and columns,
-- so the last scale may be as small as 4x4.
unfoldable pub scale_count : ℕ → ℕ
scale_count side =
    if ltb side 8
    then 0
    else if ltb side 15
    then 2
    else if ltb side 29
    then 3
    else if ltb side 57
    then 4
    else if ltb side 113
    then 5
    else 6

halvings : ℕ → ℕ → ℕ
halvings zero side = 0
halvings (suc n) side = if ltb side 8 then 0 else suc (halvings n (scaled side 2))

is_small_min : (xs ys : ℕ) → (ltb xs 8 || ltb ys 8) ≡ ltb (min xs ys) 8
is_small_min xs ys = ground arith

scaled-min : (xs ys : ℕ) → min (scaled xs 2) (scaled ys 2) ≡ scaled (min xs ys) 2
scaled-min xs ys = omega arith

passes-halvings : (n xs ys : ℕ) → passes n xs ys ≡ halvings n (min xs ys)
unfolding passes halvings
passes-halvings zero xs ys = refl
passes-halvings (suc n) xs ys =
    rw (is_small_min xs ys, passes-halvings n (scaled xs 2) (scaled ys 2), scaled-min xs ys)

-- One more round moves each bound b to 2 * b - 1.
halvings_one : (side : ℕ) → halvings 1 side ≡ (if ltb side 8 then 0 else 1)
unfolding halvings
halvings_one side = ground arith

halvings_two :
    (side : ℕ) → halvings 2 side ≡ (if ltb side 8 then 0 else if ltb side 15 then 1 else 2)
unfolding halvings
halvings_two side = ground (arith, halvings_one (scaled side 2))

halvings_three :
    (side : ℕ)
    → halvings 3 side
      ≡ (if ltb side 8 then 0 else if ltb side 15 then 1 else if ltb side 29 then 2 else 3)
unfolding halvings
halvings_three side = rw (halvings_two (scaled side 2)) (ground arith)

halvings_four :
    (side : ℕ)
    → halvings 4 side ≡ (
        if ltb side 8
        then 0
        else if ltb side 15
        then 1
        else if ltb side 29
        then 2
        else if ltb side 57
        then 3
        else 4)
unfolding halvings
halvings_four side = rw (halvings_three (scaled side 2)) (ground arith)

halvings_five :
    (side : ℕ)
    → halvings 5 side ≡ (
        if ltb side 8
        then 0
        else if ltb side 15
        then 1
        else if ltb side 29
        then 2
        else if ltb side 57
        then 3
        else if ltb side 113
        then 4
        else 5)
unfolding halvings
halvings_five side = rw (halvings_four (scaled side 2)) (ground arith)

-- The first round takes an image of 8 rows and columns as it is; five may follow.
pub passes-scale_count :
    (xs ys : ℕ) → 8 ≤ xs → 8 ≤ ys → suc (passes 5 xs ys) ≡ scale_count (min xs ys)
unfolding scale_count
passes-scale_count xs ys hx hy = rw (passes-halvings, halvings_five) (ground arith)
