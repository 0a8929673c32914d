-- ===== src/Chat/Pages.antt =====
-- services/chat_requests.py: the pages of the request list. The rows stand in the order of the query, and a
-- row is whatever the projection reads.
use ah_there_it_is.Base.{
  ℕ, zero, suc, ◌+◌, ◌-◌, ◌*◌, ◌≡◌, ◌≤◌, ◌<◌, refl, sym, ap, ◌∙◌, Bool, false, ◌||◌, Option, none,
  some, List, [], ◌++◌, length, take, drop, take-drop, drop-drop, drop_all, take_all, length-drop,
  ltb, arith, if◌then◌else◌, Bool-cases, inl, inr,
}

-- `ChatRequestPage`
pub record Page (A : Type 0) : Type 0 where
  pub records : List A
  pub page : ℕ
  pub page_size : ℕ
  pub total : ℕ
  pub has_previous : Bool
  pub has_next : Bool

abbrev pub max_page_size : ℕ
max_page_size = 100

offset_step : (q size : ℕ) → suc q * size ≡ q * size + size
offset_step q size = ground arith

module _ {A : Type 0} where
  -- `page`; `none` is its ValueError
  unfoldable pub page_of : ℕ → ℕ → List A → Option (Page A)
  page_of page page_size rows =
      if ltb page 1 || ltb page_size 1 || ltb max_page_size page_size
      then none
      else some (record {
        records = take page_size (drop ((page - 1) * page_size) rows);
        page = page;
        page_size = page_size;
        total = length rows;
        has_previous = ltb 1 page;
        has_next = ltb (page * page_size) (length rows);
      })

  -- a reader who follows `has_next` from a page on, for at most so many pages
  unfoldable pub read_on : ℕ → ℕ → ℕ → List A → List A
  read_on zero page size rows = []
  read_on (suc fuel) page size rows =
      let rest = read_on fuel (suc page) size rows in
      elim (page_of page size rows) [
        | none ↦ []
        | some p ↦ if p.has_next then p.records ++ rest else p.records
      ]

  -- the page with the number `suc q`, for arguments in range
  page_found :
      (q size : ℕ) (rows : List A)
      → 1 ≤ size
      → size ≤ max_page_size
      → page_of (suc q) size rows
        ≡ some (record {
          records = take size (drop (q * size) rows);
          page = suc q;
          page_size = size;
          total = length rows;
          has_previous = ltb 1 (suc q);
          has_next = ltb (q * size + size) (length rows);
        })
  unfolding page_of
  page_found q size rows low high =
      let a : (ltb (suc q) 1) ≡ false = ground arith in
      let b : (ltb size 1) ≡ false = ground arith in
      let c : (ltb max_page_size size) ≡ false = ground arith in
      let e : suc q - 1 ≡ q = omega arith in rw (a, b, c, e, offset_step q size) refl

  read_rest :
      (fuel q size : ℕ) (rows : List A)
      → 1 ≤ size
      → size ≤ max_page_size
      → length rows < q * size + fuel
      → read_on fuel (suc q) size rows ≡ drop (q * size) rows
  unfolding read_on
  read_rest zero q size rows low high enough =
      sym (drop_all (q * size) rows (omega (arith, enough)))
  read_rest (suc fuel) q size rows low high enough =
      elim (Bool-cases (ltb (q * size + size) (length rows))) [
        | inl more ↦
            let step = offset_step q size in
            let next =
              read_rest fuel (suc q) size rows low high (omega (arith, step, enough, low)) in
            let rest : drop (suc q * size) rows ≡ drop size (drop (q * size) rows) =
              ap (λ k. drop k rows) step ∙ sym (drop-drop (q * size) size rows) in
            rw (page_found q size rows low high, read_on, more)
              (ap (λ r. take size (drop (q * size) rows) ++ r) (next ∙ rest)
                ∙ take-drop size (drop (q * size) rows))
        | inr last ↦
            let short : length (drop (q * size) rows) ≤ size =
              (let l = length-drop (q * size) rows in ground arith) in
            rw (page_found q size rows low high, read_on, last)
              (take_all size (drop (q * size) rows) short)
      ]

  -- A reader who starts at the first page and follows `has_next` reads every row once, in the order of the
  -- query, for any page size in range, after at most as many pages as one more than there are rows.
  pub pages_cover :
      (size : ℕ) (rows : List A)
      → 1 ≤ size
      → size ≤ max_page_size
      → read_on (suc (length rows)) 1 size rows ≡ rows
  pages_cover size rows low high =
      read_rest (suc (length rows)) 0 size rows low high (omega arith)
      ∙ (let e : 0 * size ≡ 0 = omega arith in ap (λ k. drop k rows) e)
