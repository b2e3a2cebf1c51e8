-- ===== src/Players/Balance.antt =====
-- players/repository.py: the time and the sessions that the tables count for an identity.
pub mod Moves
pub mod Accounts
pub mod Calls
use craftcontrol.Base.{
  ℕ, ◌+◌, ◌-◌, ◌≤◌, ◌≡◌, sym, true, Option, none, some, List, [], ◌∷◌, ◌++◌, String, str_eq,
  str_eq→eq, str_eq_refl, arith, inl, inr, Bool-cases, Option-cases,
}
use mathlib.Core.Path.{subst}
use craftcontrol.Base.Dict.{Dict, lookup, insert, IsDistinct, lookup-insert, insert-IsDistinct}
use craftcontrol.Base.Rows.{total}
use craftcontrol.Players.{Locale, Profile, Session, Daily, Counters, add_daily}
use craftcontrol.Players.Presence.{modify, joined}
use craftcontrol.Players.Sums.{when, total-append}
use craftcontrol.Players.Days.{
  day_total, day_play, play_seconds-IsAdditive, sessions-IsAdditive, day_total-add_daily,
}
use craftcontrol.Players.Open.{has_open, has_open-append, lookup-modify}

abbrev pub ended_time : Option ℕ → Option ℕ → ℕ
ended_time none d = 0
ended_time (some _) none = 0
ended_time (some _) (some d) = d

-- The time of the closed sessions of an identity, the number of its sessions, and that of its days.
abbrev pub closed_play : String → List Session → ℕ
closed_play = total (λ s. s.identity) (λ s. ended_time s.disconnected_at s.duration_seconds)

abbrev pub number : String → List Session → ℕ
number = total (λ s. s.identity) (λ _. 1)

abbrev pub day_sessions : String → List Daily → ℕ
day_sessions = day_total (λ c. c.sessions)

-- What a profile counts is covered by the sessions of its identity, of which one is open if the
-- player is online.
abbrev pub Fits : String → Option Profile → List Session → Type 0
Fits i none ss = Unit {0}
Fits i (some p) ss =
    (p.online ≡ true → has_open i ss ≡ true)
    × (p.total_play_seconds ≤ closed_play i ss)
    × (p.sessions_count ≤ number i ss)

pub record IsBalanced (ps : Dict Profile) (ss : List Session) (ds : List Daily) : Type 0 where
  pub distinct : IsDistinct ps
  pub fits : (i : String) → Fits i (lookup i ps) ss
  -- the closed sessions of an identity last as long as its days say, and are as many as they say
  pub played : (i : String) → closed_play i ss ≡ day_play i ds
  pub counted : (i : String) → number i ss ≡ day_sessions i ds

pub modify-IsDistinct :
    (k : String) (f : Profile → Profile) (ps : Dict Profile)
    → IsDistinct ps
    → IsDistinct (modify k f ps)
unfolding modify
modify-IsDistinct k f ps h = elim (Option-cases (lookup k ps)) [
  | inl e ↦ rw (e, modify) h
  | inr (p, e) ↦ rw (e, modify) (insert-IsDistinct k (f p) ps h)
]

-- More sessions cover what fewer did.
pub Fits-mono :
    (i : String) (o : Option Profile) (ss ts : List Session)
    → (has_open i ss ≡ true → has_open i ts ≡ true)
    → closed_play i ss ≤ closed_play i ts
    → number i ss ≤ number i ts
    → Fits i o ss
    → Fits i o ts
Fits-mono i none ss ts f p n h = tt
Fits-mono i (some q) ss ts f p n h = (λ on. f (h.0 on), omega arith, omega arith)

module _ {ps : Dict Profile} {ss : List Session} {ds : List Daily} (h : IsBalanced ps ss ds) where
  -- A profile is written.
  pub insert-IsBalanced :
      (k : String) (q : Profile) → Fits k (some q) ss → IsBalanced (insert k q ps) ss ds
  insert-IsBalanced k q fit = record {
    distinct = insert-IsDistinct k q ps h.distinct;
    fits = λ i. elim (Bool-cases (str_eq k i)) [
      | inl same ↦ rw (lookup-insert k i q ps, same, sym (str_eq→eq k i same)) fit
      | inr other ↦ rw (lookup-insert k i q ps, other) (h.fits i)
    ];
    played = h.played;
    counted = h.counted;
  }

  -- A profile keeps its presence and its counts.
  pub modify-IsBalanced :
      (k : String) (f : Profile → Profile)
      → ((p : Profile) → (f p).online ≡ p.online)
      → ((p : Profile) → (f p).total_play_seconds ≡ p.total_play_seconds)
      → ((p : Profile) → (f p).sessions_count ≡ p.sessions_count)
      → IsBalanced (modify k f ps) ss ds
  unfolding modify
  modify-IsBalanced k f o t c = elim (Option-cases (lookup k ps)) [
    | inl e ↦ rw (e, modify) h
    | inr (p, e) ↦
        let fit : Fits k (some p) ss = subst (λ x. Fits k x ss) e (h.fits k) in
        rw (e, modify) (insert-IsBalanced k (f p) (rw (o p, t p, c p) fit))
  ]

  -- Counters other than the time and the sessions are added to a day.
  pub add_daily-IsBalanced :
      (l : Locale) (j : String) (t : ℕ) (v : Counters)
      → v.play_seconds ≡ 0
      → v.sessions ≡ 0
      → IsBalanced ps ss (add_daily l j t v ds)
  add_daily-IsBalanced l j t v p s = record {
    distinct = h.distinct;
    fits = h.fits;
    played = λ i. ground (
      arith,
      h.played i,
      day_total-add_daily (λ c. c.play_seconds) play_seconds-IsAdditive l i j t v ds,
      p,
    );
    counted = λ i. ground (
      arith,
      h.counted i,
      day_total-add_daily (λ c. c.sessions) sessions-IsAdditive l i j t v ds,
      s,
    );
  }

  -- A player comes: a profile is written, and an open session is added.
  pub open-IsBalanced :
      (l : Locale) (k : String) (q : Profile) (s : Session) (now : ℕ)
      → s.identity ≡ k
      → s.disconnected_at ≡ none
      → q.total_play_seconds ≤ closed_play k ss
      → q.sessions_count ≤ number k ss
      → IsBalanced
          (modify k (λ p. record p { sessions_count = p.sessions_count + 1 }) (insert k q ps))
          (ss ++ s ∷ [])
          (add_daily l k now joined ds)
  unfolding total
  open-IsBalanced l k q s now e o t c = record {
    distinct = modify-IsDistinct k _ _ (insert-IsDistinct k q ps h.distinct);
    fits = λ i. elim (Bool-cases (str_eq k i)) [
      | inl same ↦
          rw
            (
              lookup-modify k i (λ p. record p { sessions_count = p.sessions_count + 1 })
                  (insert k q ps),
              same,
              lookup-insert k i q ps,
              same,
              sym (str_eq→eq k i same),
            )
            (
              λ _. ground (arith, has_open-append k ss s, e, o, str_eq_refl k),
              ground (arith, play k, t),
              ground (arith, more k, c, e, str_eq_refl k),
            )
      | inr other ↦
          rw
            (
              lookup-modify k i (λ p. record p { sessions_count = p.sessions_count + 1 })
                  (insert k q ps),
              other,
              lookup-insert k i q ps,
              other,
            )
            (Fits-mono i (lookup i ps) ss (ss ++ s ∷ [])
              (λ on. ground (arith, has_open-append i ss s, on)) (omega (arith, play i))
              (omega (arith, more i)) (h.fits i))
    ];
    played = λ i. ground (
      arith,
      h.played i,
      play i,
      day_total-add_daily (λ d. d.play_seconds) play_seconds-IsAdditive l i k now joined ds,
    );
    counted = λ i. ground (
      arith,
      h.counted i,
      more i,
      e,
      day_total-add_daily (λ d. d.sessions) sessions-IsAdditive l i k now joined ds,
    );
  }
    where
      play : (i : String) → closed_play i (ss ++ s ∷ []) ≡ closed_play i ss
      play i = ground (
        arith,
        o,
        total-append (λ x. x.identity) (λ x. ended_time x.disconnected_at x.duration_seconds) i ss
            (s ∷ []),
      )

      more : (i : String) → number i (ss ++ s ∷ []) ≡ number i ss + when (str_eq s.identity i) 1
      more i = ground (arith, total-append (λ x. x.identity) (λ _. 1) i ss (s ∷ []))
