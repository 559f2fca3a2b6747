-- ===== src/Activity/Paging.antt =====
-- The pages of a feed, one after the other
-- (apps/api/src/modules/ledger/activity.projector.ts, lines 221-231).
use splitsaathi.Common.{
  All, Bool-cases, List, Option, [], ap, append-nil, arith, false, filter, inl, inr, length, ltb,
  none, refl, some, suc, sym, true, zero, ℕ, ◌++◌, ◌+◌, ◌-◌, ◌<◌, ◌∙◌, ◌∷◌, ◌≡◌, ◌≤◌,
}
use splitsaathi.Activity.{
  ActivityFeedRow, first_rows, is_before, last_cursor, page_limit, paginate_rows, rows_after,
}

page_limit-suc : (limit : Option ℕ) → (m : ℕ) × (page_limit limit ≡ suc m)
unfolding page_limit
page_limit-suc none = (49, refl)
page_limit-suc (some n) = (page_limit (some n) - 1, ground arith)

module _ {Copy : Type 0} where
  -- The rows come with falling positions.
  abbrev pub IsDescending : List (ActivityFeedRow Copy) → Type 0
  IsDescending [] = Unit
  IsDescending (row ∷ rows) =
      All (λ later. later.global_position < row.global_position) rows × IsDescending rows

  abbrev pub last_rows : ℕ → List (ActivityFeedRow Copy) → List (ActivityFeedRow Copy)
  last_rows zero rows = rows
  last_rows (suc n) [] = []
  last_rows (suc n) (row ∷ rows) = last_rows n rows

  -- A reader that follows the cursors from one on, for some pages.
  unfoldable pub read_pages :
      ℕ → Option ℕ → Option ℕ → List (ActivityFeedRow Copy) → List (ActivityFeedRow Copy)
  unfolding paginate_rows
  read_pages zero limit cursor rows = []
  read_pages (suc pages) limit cursor rows =
      let page = paginate_rows rows limit cursor in
      page.items ++ elim page.next_cursor as (λ x. List (ActivityFeedRow Copy)) [
        | none ↦ []
        | some next ↦ read_pages pages limit (some next) rows
      ]

  first-last :
      (n : ℕ) (rows : List (ActivityFeedRow Copy)) → first_rows n rows ++ last_rows n rows ≡ rows
  unfolding first_rows
  first-last zero rows = refl
  first-last (suc n) [] = refl
  first-last (suc n) (row ∷ rows) = ap (λ rest. row ∷ rest) (first-last n rows)

  first_all :
      (n : ℕ) (rows : List (ActivityFeedRow Copy)) → length rows ≤ n → first_rows n rows ≡ rows
  unfolding first_rows
  first_all zero [] h = refl
  first_all zero (row ∷ rows) h = absurd (omega arith)
  first_all (suc n) [] h = refl
  first_all (suc n) (row ∷ rows) h = ap (λ rest. row ∷ rest) (first_all n rows (omega arith))

  length-last_rows :
      (n : ℕ) (rows : List (ActivityFeedRow Copy)) → length (last_rows n rows) ≤ length rows - n
  length-last_rows zero rows = omega arith
  length-last_rows (suc n) [] = omega arith
  length-last_rows (suc n) (row ∷ rows) = omega (arith, length-last_rows n rows)

  keeps_before :
      (cursor : ℕ) (rows : List (ActivityFeedRow Copy))
      → All (λ row. row.global_position < cursor) rows
      → filter (is_before cursor) rows ≡ rows
  keeps_before cursor [] h = refl
  keeps_before cursor (row ∷ rows) h =
      let before : ltb row.global_position cursor ≡ true = ground (arith, h.0) in
      rw before (ap (λ rest. row ∷ rest) (keeps_before cursor rows h.1))

  filter_twice :
      (low high : ℕ) (rows : List (ActivityFeedRow Copy))
      → low ≤ high
      → filter (is_before low) (filter (is_before high) rows) ≡ filter (is_before low) rows
  filter_twice low high [] h = refl
  filter_twice low high (row ∷ rows) h = ground (arith, filter_twice low high rows h)

  -- The rows after the last one of a page.
  after_page :
      (n : ℕ) (rows : List (ActivityFeedRow Copy))
      → IsDescending rows
      → n + 1 < length rows
      → (cursor : ℕ) × (last_cursor (first_rows (suc n) rows) ≡ some cursor)
        × (filter (is_before cursor) rows ≡ last_rows (suc n) rows)
        × ((high : ℕ) → All (λ row. row.global_position < high) rows → cursor < high)
  unfolding last_cursor first_rows
  after_page n [] falling longer = absurd (omega arith)
  after_page zero (row ∷ rows) falling longer =
      let itself : ltb row.global_position row.global_position ≡ false = ground arith in
      (
        row.global_position,
        refl,
        rw itself (keeps_before row.global_position rows falling.0),
        λ high below. below.0,
      )
  after_page (suc n) (row ∷ []) falling longer = absurd (omega arith)
  after_page (suc n) (row ∷ next ∷ rows) falling longer =
      let (cursor, last_is, rest_is, below) = after_page n (next ∷ rows) falling.1 (omega arith) in
      let lower : cursor < row.global_position = below row.global_position falling.0 in
      let passed : ltb row.global_position cursor ≡ false = ground (arith, lower) in
      (cursor, last_is, rw passed rest_is, λ high bounds. below high bounds.1)

  filter-All :
      (high cursor : ℕ) (rows : List (ActivityFeedRow Copy))
      → All (λ row. row.global_position < high) rows
      → All (λ row. row.global_position < high) (filter (is_before cursor) rows)
  filter-All high cursor [] below = tt
  filter-All high cursor (row ∷ rows) below = elim (Bool-cases (is_before cursor row)) [
    | inl is ↦ rw is (below.0, filter-All high cursor rows below.1)
    | inr isnt ↦ rw isnt (filter-All high cursor rows below.1)
  ]

  filter_below :
      (cursor : ℕ) (rows : List (ActivityFeedRow Copy))
      → All (λ row. row.global_position < cursor) (filter (is_before cursor) rows)
  filter_below cursor [] = tt
  filter_below cursor (row ∷ rows) = elim (Bool-cases (is_before cursor row)) [
    | inl is ↦ rw is (ground (arith, is), filter_below cursor rows)
    | inr isnt ↦ rw isnt (filter_below cursor rows)
  ]

  filter-IsDescending :
      (cursor : ℕ) (rows : List (ActivityFeedRow Copy))
      → IsDescending rows
      → IsDescending (filter (is_before cursor) rows)
  filter-IsDescending cursor [] falling = tt
  filter-IsDescending cursor (row ∷ rows) falling = elim (Bool-cases (is_before cursor row)) [
    | inl is ↦ rw is (
      filter-All row.global_position cursor rows falling.0,
      filter-IsDescending cursor rows falling.1,
    )
    | inr isnt ↦ rw isnt (filter-IsDescending cursor rows falling.1)
  ]

  rows_after-IsDescending :
      (cursor : Option ℕ) (rows : List (ActivityFeedRow Copy))
      → IsDescending rows
      → IsDescending (rows_after cursor rows)
  rows_after-IsDescending none rows falling = falling
  rows_after-IsDescending (some cursor) rows falling = filter-IsDescending cursor rows falling

  -- A later cursor takes its rows from those after an earlier one.
  rows_after_twice :
      (cursor : Option ℕ) (next : ℕ) (rows : List (ActivityFeedRow Copy))
      → ((high : ℕ)
          → All (λ row. row.global_position < high) (rows_after cursor rows)
          → next < high)
      → filter (is_before next) (rows_after cursor rows) ≡ filter (is_before next) rows
  rows_after_twice none next rows below = refl
  rows_after_twice (some cursor) next rows below =
      filter_twice next cursor rows (omega (arith, below cursor (filter_below cursor rows)))

  short_page :
      (pages : ℕ) (limit cursor : Option ℕ) (rows : List (ActivityFeedRow Copy))
      → ltb (page_limit limit) (length (rows_after cursor rows)) ≡ false
      → read_pages (suc pages) limit cursor rows ≡ rows_after cursor rows
  unfolding read_pages paginate_rows
  short_page pages limit cursor rows short =
      rw (read_pages, short)
        (append-nil (first_rows (page_limit limit) (rows_after cursor rows))
          ∙ first_all (page_limit limit) (rows_after cursor rows) (ground (arith, short)))

  full_page :
      (pages : ℕ) (limit cursor : Option ℕ) (rows : List (ActivityFeedRow Copy)) (next : ℕ)
      → ltb (page_limit limit) (length (rows_after cursor rows)) ≡ true
      → last_cursor (first_rows (page_limit limit) (rows_after cursor rows)) ≡ some next
      → read_pages (suc pages) limit cursor rows
        ≡ first_rows (page_limit limit) (rows_after cursor rows)
          ++ read_pages pages limit (some next) rows
  unfolding read_pages paginate_rows
  full_page pages limit cursor rows next full last_is = rw (read_pages, full, last_is) refl

  -- A reader misses nothing and sees nothing twice: when the rows come with falling positions, following
  -- the cursors from any one on gives the rows behind it, each once and in their order, whatever the
  -- limit of the pages. As many pages as there are such rows, and one more, are enough.
  pub read_pages_complete :
      (pages : ℕ) (limit cursor : Option ℕ) (rows : List (ActivityFeedRow Copy))
      → IsDescending rows
      → length (rows_after cursor rows) ≤ pages
      → read_pages (suc pages) limit cursor rows ≡ rows_after cursor rows
  read_pages_complete zero limit cursor rows falling enough =
      short_page zero limit cursor rows (ground arith)
  read_pages_complete (suc pages) limit cursor rows falling enough =
      elim (Bool-cases (ltb (page_limit limit) (length (rows_after cursor rows)))) [
        | inr short ↦ short_page (suc pages) limit cursor rows short
        | inl full ↦
            let (m, m_is) = page_limit-suc limit in
            let longer : m + 1 < length (rows_after cursor rows) = ground (arith, full, m_is) in
            let (next, last_is, rest_is, below) =
              after_page m (rows_after cursor rows) (rows_after-IsDescending cursor rows falling)
                longer in
            let rest : filter (is_before next) rows ≡ last_rows (suc m) (rows_after cursor rows) =
              sym (rows_after_twice cursor next rows below) ∙ rest_is in
            let shrinks = length-last_rows (suc m) (rows_after cursor rows) in
            let few : length (filter (is_before next) rows) ≤ pages =
              omega (arith, ap (λ found. length found) rest, shrinks, enough, longer) in
            full_page (suc pages) limit cursor rows next full
              (ap (λ n. last_cursor (first_rows n (rows_after cursor rows))) m_is ∙ last_is)
            ∙ ap
                (λ n.
                  first_rows n (rows_after cursor rows)
                  ++ read_pages (suc pages) limit (some next) rows)
                m_is
            ∙ ap (λ found. first_rows (suc m) (rows_after cursor rows) ++ found)
                (read_pages_complete pages limit (some next) rows falling few ∙ rest)
            ∙ first-last (suc m) (rows_after cursor rows)
      ]
