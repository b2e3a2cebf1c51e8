-- ===== src/Players/Balance/Moves.antt =====
-- players/repository.py: the balance of the tables when a player goes, and when the rows of a temporary
-- identity move.
use craftcontrol.Base.{
  ℕ, ◌+◌, ◌-◌, ◌≤◌, ◌≡◌, refl, sym, ◌∙◌, Bool, true, false, ◌&&◌, Option, none, some, List, String,
  str_eq, str_eq→eq, str_eq_refl, if◌then◌else◌, arith, eq_iff, inl, inr, Bool-cases,
}
use craftcontrol.Base.Dict.{Dict, lookup, IsDistinct}
use craftcontrol.Base.Rows.{update_last}
use craftcontrol.Players.{
  Locale, Profile, Session, Daily, allocate_daily_play, move_sessions, merge_daily_records,
}
use craftcontrol.Players.Presence.{is_open}
use craftcontrol.Players.Sums.{when, total-move, total-update_last, total-update_last_same}
use craftcontrol.Players.Days.{
  play_seconds-IsAdditive, sessions-IsAdditive, day_total-merge_daily_records,
  day_total-allocate_other, play-allocate_daily_play,
}
use craftcontrol.Players.Open.{has_open, has_open-update_last_other, has_open-move_other}
use craftcontrol.Players.Balance.{closed_play, number, ended_time, Fits, Fits-mono, IsBalanced}

abbrev pub moved : Bool → Bool → ℕ → ℕ → ℕ
moved at_a at_b n m = if at_a then 0 else (n + when at_b m)

pub play-move_sessions :
    (i a b : String) (ss : List Session)
    → str_eq a b ≡ false
    → closed_play i (move_sessions a b ss)
      ≡ moved (str_eq a i) (str_eq b i) (closed_play i ss) (closed_play a ss)
unfolding move_sessions
play-move_sessions i a b ss n =
    total-move (λ x. x.identity) (λ x. ended_time x.disconnected_at x.duration_seconds) i a b
      (λ s. record s { identity = b }) ss n (λ x. refl) (λ x. refl)

pub number-move_sessions :
    (i a b : String) (ss : List Session)
    → str_eq a b ≡ false
    → number i (move_sessions a b ss) ≡ moved (str_eq a i) (str_eq b i) (number i ss) (number a ss)
unfolding move_sessions
number-move_sessions i a b ss n =
    total-move (λ x. x.identity) (λ _. 1) i a b (λ s. record s { identity = b }) ss n (λ x. refl)
      (λ x. refl)

-- The profile of a player that has gone.
abbrev pub Gone : ℕ → ℕ → Option Profile → Type 0
Gone play n none = Unit {0}
Gone play n (some q) = (q.online ≡ false) × (q.total_play_seconds ≤ play) × (q.sessions_count ≤ n)

Gone-Fits :
    (i : String) (play n : ℕ) (o : Option Profile) (ss : List Session)
    → play ≤ closed_play i ss
    → n ≤ number i ss
    → Gone play n o
    → Fits i o ss
Gone-Fits i play n none ss p m g = tt
Gone-Fits i play n (some q) ss p m g = (λ on. ground (arith, g.0, on), omega arith, omega arith)

open-ended_time :
    (k : String) (s : Session)
    → is_open k s ≡ true
    → ended_time s.disconnected_at s.duration_seconds ≡ 0
open-ended_time k s h = ground (arith, h)

open-identity : (k : String) (s : Session) → is_open k s ≡ true → s.identity ≡ k
open-identity k s h = ground (arith, eq_iff s.identity k, h)

module _ {ps : Dict Profile} {ss : List Session} {ds : List Daily} (h : IsBalanced ps ss ds) where
  -- A player goes: the open session is closed, and its time is given to the days.
  pub close-IsBalanced :
      (l : Locale) (k : String) (started now : ℕ) (f : Session → Session) (qs : Dict Profile)
      (after : Option Profile)
      → IsDistinct qs
      → ((i : String) → lookup i qs ≡ (if str_eq k i then after else lookup i ps))
      → Gone (closed_play k ss + (now - started)) (number k ss) after
      → ((s : Session) → (f s).identity ≡ s.identity)
      → ((s : Session) → ended_time (f s).disconnected_at (f s).duration_seconds ≡ now - started)
      → has_open k ss ≡ true
      → IsBalanced qs (update_last (is_open k) f ss) (allocate_daily_play l k started now ds)
  close-IsBalanced l k started now f qs after d look gone same time was_open = record {
    distinct = d;
    fits = λ i. elim (Bool-cases (str_eq k i)) [
      | inl hit ↦
          rw (look i, hit, sym (str_eq→eq k i hit))
            (Gone-Fits k _ _ after (update_last (is_open k) f ss)
              (ground (arith, play k, was_open, str_eq_refl k)) (omega (arith, count k)) gone)
      | inr miss ↦
          rw (look i, miss)
            (Fits-mono i (lookup i ps) ss (update_last (is_open k) f ss)
              (λ on. has_open-update_last_other k f same i ss miss ∙ on)
              (ground (arith, play i, miss)) (omega (arith, count i)) (h.fits i))
    ];
    played = λ i.
        ground (arith, h.played i, play i, was_open, play-allocate_daily_play l i k started now ds);
    counted = λ i. ground (
      arith,
      h.counted i,
      count i,
      day_total-allocate_other (λ c. c.sessions) sessions-IsAdditive l i k started now ds
          (λ n. refl),
    );
  }
    where
      play :
          (i : String)
          → closed_play i (update_last (is_open k) f ss)
            ≡ closed_play i ss + when (has_open k ss && str_eq k i) (now - started)
      play i =
          total-update_last (λ x. x.identity) (λ x. ended_time x.disconnected_at x.duration_seconds)
            i k (now - started) (is_open k) f ss (open-identity k) (open-ended_time k) same time

      count : (i : String) → number i (update_last (is_open k) f ss) ≡ number i ss
      count i =
          total-update_last_same (λ x. x.identity) (λ _. 1) i (is_open k) f ss same (λ x. refl)

  -- The rows of the identity `a` go to `b`.
  pub move-IsBalanced :
      (a b : String) (qs : Dict Profile)
      → str_eq a b ≡ false
      → IsDistinct qs
      → lookup a qs ≡ none
      → Fits b (lookup b qs) (move_sessions a b ss)
      → ((i : String) → str_eq a i ≡ false → str_eq b i ≡ false → lookup i qs ≡ lookup i ps)
      → IsBalanced qs (move_sessions a b ss) (merge_daily_records a b ds)
  move-IsBalanced a b qs n d gone here other = record {
    distinct = d;
    fits = λ i. elim (Bool-cases (str_eq a i)) [
      | inl at_a ↦ rw (sym (str_eq→eq a i at_a), gone) tt
      | inr not_a ↦ elim (Bool-cases (str_eq b i)) [
        | inl at_b ↦ rw (sym (str_eq→eq b i at_b)) here
        | inr not_b ↦ rw (other i not_a not_b) (
            Fits-mono i (lookup i ps) ss (move_sessions a b ss)
              (λ on. has_open-move_other i a b ss not_a not_b ∙ on)
              (ground (arith, play-move_sessions i a b ss n, not_a, not_b))
              (ground (arith, number-move_sessions i a b ss n, not_a, not_b)) (h.fits i))
      ]
    ];
    played = λ i. ground (
      arith,
      h.played i,
      h.played a,
      play-move_sessions i a b ss n,
      day_total-merge_daily_records (λ c. c.play_seconds) play_seconds-IsAdditive i a b ds n,
    );
    counted = λ i. ground (
      arith,
      h.counted i,
      h.counted a,
      number-move_sessions i a b ss n,
      day_total-merge_daily_records (λ c. c.sessions) sessions-IsAdditive i a b ds n,
    );
  }
