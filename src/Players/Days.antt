-- ===== src/Players/Days.antt =====
-- players/sqlite.py: the daily counters of an identity, after an addition, an allocation of play time
-- to its days, and a merge.
use craftcontrol.Base.{
  ℕ, zero, suc, ◌+◌, ◌-◌, ◌≤◌, ◌<◌, ◌≡◌, refl, sym, ◌∙◌, min, max, true, false, List, [], ◌∷◌,
  String, str_eq, str_eq→eq, ltb→lt, if◌then◌else◌, arith, eq_iff, inl, inr, Bool-cases, ltb,
}
use craftcontrol.Base.Rows.{upsert, total}
use craftcontrol.Players.{
  Locale, Counters, Daily, no_counters, add_counters, is_empty, is_day, add_daily, allocate,
  allocate_daily_play, merge_rows, merge_daily_records,
}
use craftcontrol.Players.Sums.{when, total-upsert, total-delete_other, total-delete_self}

abbrev pub day_total : (Counters → ℕ) → String → List Daily → ℕ
day_total c = total (λ d. d.identity) (λ d. c d.counters)

pub is_day-identity :
    (identity day : String) (d : Daily) → is_day identity day d ≡ true → d.identity ≡ identity
is_day-identity identity day d h = ground (arith, eq_iff d.identity identity, h)

-- A column that adds up.
pub record IsAdditive (c : Counters → ℕ) : Type 0 where
  pub adds : (a b : Counters) → c (add_counters a b) ≡ c a + c b
  pub starts : c no_counters ≡ 0
  pub vanishes : (v : Counters) → is_empty v ≡ true → c v ≡ 0

pub play_seconds-IsAdditive : IsAdditive (λ c. c.play_seconds)
unfolding add_counters is_empty
play_seconds-IsAdditive = record {
  adds = λ a b. refl;
  starts = refl;
  vanishes = λ v h. ground (arith, h);
}

pub sessions-IsAdditive : IsAdditive (λ c. c.sessions)
unfolding add_counters is_empty
sessions-IsAdditive = record {
  adds = λ a b. refl;
  starts = refl;
  vanishes = λ v h. ground (arith, h);
}

module _ (c : Counters → ℕ) (ok : IsAdditive c) where
  pub day_total-add_daily :
      (l : Locale) (i j : String) (t : ℕ) (v : Counters) (ds : List Daily)
      → day_total c i (add_daily l j t v ds) ≡ day_total c i ds + when (str_eq j i) (c v)
  unfolding add_daily
  day_total-add_daily l i j t v ds = elim (Bool-cases (is_empty v)) [
    | inl none_left ↦ rw none_left (ground (arith, ok.vanishes v none_left))
    | inr some_left ↦ rw some_left (
        total-upsert (λ d. d.identity) (λ d. c d.counters) i j (c v) _ _ _ ds refl
          (ground (arith, ok.adds no_counters v, ok.starts)) (is_day-identity j (l.day_key t))
          (λ d. refl) (λ d. ok.adds d.counters v))
  ]

  day_total-merge_rows :
      (i a b : String) (rs ds : List Daily)
      → day_total c i (merge_rows a b rs ds)
        ≡ day_total c i ds + when (str_eq b i) (day_total c a rs)
  unfolding merge_rows total
  day_total-merge_rows i a b [] ds = ground arith
  day_total-merge_rows i a b (r ∷ rs) ds = elim (Bool-cases (str_eq r.identity a)) [
    | inr miss ↦ rw (miss) (day_total-merge_rows i a b rs ds)
    | inl hit ↦ rw (hit) (
        ground (
          arith,
          day_total-merge_rows i a b rs (
              upsert (is_day b r.day) (record r { identity = b })
                (λ d. record d {
                  counters = add_counters d.counters r.counters;
                  updated_at = max d.updated_at r.updated_at;
                })
                ds),
          total-upsert (λ d. d.identity) (λ d. c d.counters) i b (c r.counters) (is_day b r.day)
              (record r { identity = b })
              (λ d. record d {
                counters = add_counters d.counters r.counters;
                updated_at = max d.updated_at r.updated_at;
              })
              ds refl refl (is_day-identity b r.day) (λ d. refl)
              (λ d. ok.adds d.counters r.counters),
        ))
  ]

  pub day_total-merge_daily_records :
      (i a b : String) (ds : List Daily)
      → str_eq a b ≡ false
      → day_total c i (merge_daily_records a b ds)
        ≡ (if str_eq a i then 0 else (day_total c i ds + when (str_eq b i) (day_total c a ds)))
  unfolding merge_daily_records
  day_total-merge_daily_records i a b ds n = elim (Bool-cases (str_eq a i)) [
    | inl same ↦
        rw (same, sym (str_eq→eq a i same))
          (total-delete_self (λ d. d.identity) (λ d. c d.counters) a (merge_rows a b ds ds))
    | inr other ↦ rw other (
        total-delete_other (λ d. d.identity) (λ d. c d.counters) i a (merge_rows a b ds ds) other
        ∙ day_total-merge_rows i a b ds ds)
  ]

  allocate-other :
      (l : Locale) (i j : String) (fuel cursor end : ℕ) (ds : List Daily)
      → ((n : ℕ) → c (record no_counters { play_seconds = n }) ≡ 0)
      → day_total c i (allocate l fuel j cursor end ds) ≡ day_total c i ds
  unfolding allocate
  allocate-other l i j zero cursor end ds z = refl
  allocate-other l i j (suc fuel) cursor end ds z = elim (Bool-cases (ltb cursor end)) [
    | inr over ↦ rw (over, allocate) refl
    | inl more ↦
        let boundary = min end (l.next_midnight cursor) in
        let v : Counters = record no_counters { play_seconds = boundary - cursor } in
        rw (more, allocate)
          (ground (
            arith,
            allocate-other l i j fuel boundary end (add_daily l j cursor v ds) z,
            day_total-add_daily l i j cursor v ds,
            z (boundary - cursor),
          ))
  ]

  -- An allocation of play time adds to no other column.
  pub day_total-allocate_other :
      (l : Locale) (i j : String) (started ended : ℕ) (ds : List Daily)
      → ((n : ℕ) → c (record no_counters { play_seconds = n }) ≡ 0)
      → day_total c i (allocate_daily_play l j started ended ds) ≡ day_total c i ds
  unfolding allocate_daily_play
  day_total-allocate_other l i j started ended ds z =
      allocate-other l i j (max started ended - started) started (max started ended) ds z

abbrev pub day_play : String → List Daily → ℕ
day_play = day_total (λ c. c.play_seconds)

play-allocate :
    (l : Locale) (i j : String) (fuel cursor end : ℕ) (ds : List Daily)
    → end - cursor ≤ fuel
    → day_play i (allocate l fuel j cursor end ds)
      ≡ day_play i ds + when (str_eq j i) (end - cursor)
unfolding allocate
play-allocate l i j zero cursor end ds h = ground arith
play-allocate l i j (suc fuel) cursor end ds h = elim (Bool-cases (ltb cursor end)) [
  | inr over ↦ rw (over, allocate) (ground (arith, over))
  | inl more ↦
      let boundary = min end (l.next_midnight cursor) in
      let v : Counters = record no_counters { play_seconds = boundary - cursor } in
      let moves : cursor < boundary =
        omega (arith, l.later_midnight cursor, ltb→lt cursor end more) in
      rw (more, allocate)
        (ground (
          arith,
          moves,
          play-allocate l i j fuel boundary end (add_daily l j cursor v ds) (omega (arith, moves)),
          day_total-add_daily (λ c. c.play_seconds) play_seconds-IsAdditive l i j cursor v ds,
        ))
]

-- An allocation gives the days of the identity, together, the time between its ends.
pub play-allocate_daily_play :
    (l : Locale) (i j : String) (started ended : ℕ) (ds : List Daily)
    → day_play i (allocate_daily_play l j started ended ds)
      ≡ day_play i ds + when (str_eq j i) (ended - started)
unfolding allocate_daily_play
play-allocate_daily_play l i j started ended ds = ground (
  arith,
  play-allocate l i j (max started ended - started) started (max started ended) ds (omega arith),
)
