-- ===== src/Scheduler/Pages.antt =====
-- What QueryJobStatuses returns.
use mathlib.Core.Path.{ap₂, fun_ext}
use native.Mathlib.Nat.{suc-add}
use native.Mathlib.Decide.{dec_le, dec_lt}
use go_again.Prelude.{
  ltb_ℤ, ◌&&◌, ℕ, suc, ◌+◌, ◌-◌, ◌≤◌, ◌<◌, ℤ, pos, negsuc, ◌+ℤ◌, ◌≤ℤ◌, wrap64, wrap64_fits,
  wrap64_over, add_pos, half_word, word, List, [], ◌∷◌, ◌++◌, true, false, length, take, drop,
  filter_by, ◌≡◌, refl, ap, ◌∙◌, sym, ◌⊎◌, inl, inr, arith, done, panicked, length-drop, take_all,
  drop_all, drop-drop, zero,
}
use go_again.Storage.{JobStatus}
use go_again.Scheduler.Filter.{wanted, passes-wanted}
use go_again.Scheduler.Query.{JobStatusQuery, slice, paginate, query_job_statuses}

-- The page of `limit` elements from `offset` on.
abbrev pub page : {A : Type 0} → ℕ → ℕ → List A → List A
page offset limit xs = take limit (drop offset xs)

slice_lem :
    {A : Type 0} (xs : List A) (lo hi : ℕ)
    → lo ≤ hi
    → hi ≤ length xs
    → slice xs (pos lo) (pos hi) ≡ done (take (hi - lo) (drop lo xs))
unfolding slice
slice_lem xs lo hi p q = ground arith

module _ (xs : List JobStatus) (offset : ℕ) where
  past_end : (limit : ℤ) → length xs ≤ offset → paginate xs (pos offset) limit ≡ done []
  unfolding paginate
  past_end limit h = ground arith

  to_end :
      (limit : ℤ)
      → offset < length xs
      → (ltb_ℤ (pos 0) limit && ltb_ℤ (wrap64 (pos offset +ℤ limit)) (pos (length xs))) ≡ false
      → paginate xs (pos offset) limit ≡ done (drop offset xs)
  unfolding paginate
  to_end limit h whole = ground (
    arith,
    slice_lem xs offset (length xs),
    take_all (length xs - offset) (drop offset xs),
    length-drop offset xs,
  )

  inside :
      (limit : ℕ)
      → 0 < limit
      → wrap64 (pos offset +ℤ pos limit) ≡ pos (offset + limit)
      → offset + limit < length xs
      → paginate xs (pos offset) (pos limit) ≡ done (page offset limit xs)
  unfolding paginate
  inside limit p sum h = ground (arith, slice_lem xs offset (offset + limit))

paginate_lem :
    (xs : List JobStatus) (offset limit : ℕ)
    → 0 < limit
    → offset + limit < half_word
    → paginate xs (pos offset) (pos limit) ≡ done (page offset limit xs)
paginate_lem xs offset limit p fits =
    let sum : wrap64 (pos offset +ℤ pos limit) ≡ pos (offset + limit) =
      rw add_pos (wrap64_fits (offset + limit) fits) in
    elim (dec_le (length xs) offset) [
      | yes beyond ↦
          past_end xs offset (pos limit) beyond
          ∙ ap done
              (sym (ap (take limit) (drop_all offset xs beyond) ∙ take_all limit [] (omega arith)))
      | no within ↦ elim (dec_lt (offset + limit) (length xs)) [
        | yes full ↦ inside xs offset limit p sum full
        | no short ↦
            to_end xs offset (pos limit) (omega arith) (rw sum (ground arith))
            ∙ ap done (sym (take_all limit (drop offset xs) (omega (arith, length-drop offset xs))))
      ]
    ]

no_limit :
    (xs : List JobStatus) (offset : ℕ) (limit : ℤ)
    → limit ≤ℤ pos 0
    → paginate xs (pos offset) limit ≡ done (drop offset xs)
no_limit xs offset limit h = elim (dec_le (length xs) offset) [
  | yes beyond ↦ past_end xs offset limit beyond ∙ ap done (sym (drop_all offset xs beyond))
  | no within ↦
      let off : ltb_ℤ (pos 0) limit ≡ false = ground arith in
      to_end xs offset limit (omega arith) (rw off refl)
]

negative_offset :
    (xs : List JobStatus) (n : ℕ) (limit : ℤ)
    → paginate xs (negsuc n) limit ≡ paginate xs (pos 0) limit
unfolding paginate
negative_offset xs n limit =
    let below : ltb_ℤ (negsuc n) (pos 0) ≡ true = ground arith in rw below refl

-- The sum of the offset and the limit overflows to a negative end of the slice.
overflow :
    (xs : List JobStatus) (offset limit : ℕ)
    → offset < length xs
    → half_word ≤ offset + limit
    → offset + limit < word
    → 0 < limit
    → paginate xs (pos offset) (pos limit) ≡ panicked
unfolding paginate slice
overflow xs offset limit within over under p =
    let sum : wrap64 (pos offset +ℤ pos limit) ≡ negsuc (word - 1 - (offset + limit)) =
      rw add_pos (wrap64_over (offset + limit) over under) in
    ground arith

query_paginates :
    (xs : List JobStatus) (q : JobStatusQuery)
    → (query_job_statuses xs q ≡ paginate (filter_by (wanted q) xs) q.offset q.limit)
      ⊎ ((xs ≡ []) × (query_job_statuses xs q ≡ done []))
unfolding query_job_statuses
query_paginates [] q = inr (refl, refl)
query_paginates (x ∷ xs) q =
    inl (ap (λ p. paginate (filter_by p (x ∷ xs)) q.offset q.limit) (fun_ext (passes-wanted q)))

page_nil : (offset limit : ℕ) → page {A = JobStatus} offset limit [] ≡ []
page_nil offset limit =
    ap (take limit) (drop_all offset [] (omega arith)) ∙ take_all limit [] (omega arith)

-- With an offset that is not negative and a positive limit, whose sum fits in an int64,
-- QueryJobStatuses returns the page of that size, from that offset on, of the statuses that the query
-- wants: those with a listed ID, if any ID is listed, and a listed state, if any state is listed.
pub query_job_statuses-page :
    (xs : List JobStatus) (q : JobStatusQuery) (offset limit : ℕ)
    → q.offset ≡ pos offset
    → q.limit ≡ pos limit
    → 0 < limit
    → offset + limit < half_word
    → query_job_statuses xs q ≡ done (page offset limit (filter_by (wanted q) xs))
query_job_statuses-page xs q offset limit eo el p fits = elim (query_paginates xs q) [
  | inl e ↦
      e
      ∙ ap₂ (paginate (filter_by (wanted q) xs)) eo el
      ∙ paginate_lem (filter_by (wanted q) xs) offset limit p fits
  | inr (empty, e) ↦
      e
      ∙ ap done
          (sym (ap (λ l. page offset limit (filter_by (wanted q) l)) empty ∙ page_nil offset limit))
]

-- Without a positive limit the query returns all that it wants from the offset on, and a negative
-- offset counts as 0.
pub query_job_statuses_rest :
    (xs : List JobStatus) (q : JobStatusQuery) (n : ℕ)
    → q.limit ≤ℤ pos 0
    → (q.offset ≡ pos n → query_job_statuses xs q ≡ done (drop n (filter_by (wanted q) xs)))
      × (q.offset ≡ negsuc n → query_job_statuses xs q ≡ done (filter_by (wanted q) xs))
query_job_statuses_rest xs q n h = elim (query_paginates xs q) [
  | inl e ↦ (
    λ eo.
        e
        ∙ ap (λ o. paginate (filter_by (wanted q) xs) o q.limit) eo
        ∙ no_limit (filter_by (wanted q) xs) n q.limit h,
    λ eo.
        e
        ∙ ap (λ o. paginate (filter_by (wanted q) xs) o q.limit) eo
        ∙ negative_offset (filter_by (wanted q) xs) n q.limit
        ∙ no_limit (filter_by (wanted q) xs) 0 q.limit h,
  )
  | inr (empty, e) ↦ (
    λ eo.
        e
        ∙ ap done
            (sym (ap (λ l. drop n (filter_by (wanted q) l)) empty ∙ drop_all n [] (omega arith))),
    λ eo. e ∙ ap done (sym (ap (filter_by (wanted q)) empty)),
  )
]

take-append : (m n : ℕ) (xs : List JobStatus) → take m xs ++ take n (drop m xs) ≡ take (m + n) xs
take-append zero n xs = ap (λ k. take k xs) (omega arith)
take-append (suc m) n [] = take_all n [] (omega arith) ∙ sym (take_all (suc m + n) [] (omega arith))
take-append (suc m) n (x ∷ xs) = rw suc-add (ap (◌∷◌ x) (take-append m n xs))

-- Two successive pages of a query, of positive sizes `m` and `n` and with an end that fits in an
-- int64, are together its page of size `m + n`: no status is skipped between them and none is
-- returned twice.
pub successive_pages :
    (xs : List JobStatus) (q : JobStatusQuery) (offset m n : ℕ)
    → 0 < m
    → 0 < n
    → offset + (m + n) < half_word
    → (a b : List JobStatus) × (query_job_statuses xs
          (record q { offset = pos offset; limit = pos m })
        ≡ done a)
      × (query_job_statuses xs (record q { offset = pos (offset + m); limit = pos n }) ≡ done b)
      × (query_job_statuses xs (record q { offset = pos offset; limit = pos (m + n) })
          ≡ done (a ++ b))
successive_pages xs q offset m n pm pn fits =
    let ys = filter_by (wanted q) xs in
    (
      page offset m ys,
      page (offset + m) n ys,
      query_job_statuses-page xs _ offset m refl refl pm (omega arith),
      query_job_statuses-page xs _ (offset + m) n refl refl pn (omega arith),
      query_job_statuses-page xs _ offset (m + n) refl refl (omega arith) fits
          ∙ ap done (
              sym (
                ap (λ l. page offset m ys ++ take n l) (sym (drop-drop offset m ys))
                ∙ take-append m n (drop offset ys))),
    )

-- The sum of the offset and the limit overflows: for every offset inside the result and every limit
-- so large that the sum passes 2^63 - 1, a query panics in place of returning the rest.
pub query_job_statuses_overflow :
    (xs : List JobStatus) (q : JobStatusQuery) (offset limit : ℕ)
    → q.offset ≡ pos offset
    → q.limit ≡ pos limit
    → 0 < limit
    → limit < half_word
    → offset < half_word
    → offset < length (filter_by (wanted q) xs)
    → half_word ≤ offset + limit
    → query_job_statuses xs q ≡ panicked
query_job_statuses_overflow xs q offset limit eo el p small few within over =
    elim (query_paginates xs q) [
      | inl e ↦
          e
          ∙ ap₂ (paginate (filter_by (wanted q) xs)) eo el
          ∙ overflow (filter_by (wanted q) xs) offset limit within over (omega arith) p
      | inr (empty, e) ↦ absurd (omega (arith, ap (λ l. length (filter_by (wanted q) l)) empty))
    ]
