-- ===== src/Players/Balance/Accounts.antt =====
-- players/repository.py: every call keeps the tables balanced.
use mathlib.Core.Path.{subst}
use craftcontrol.Base.{
  ℕ, ◌+◌, ◌-◌, ◌≤◌, ◌≡◌, refl, Bool, true, false, Option, none, some, List, String, concat, str_eq,
  str_eq_refl, arith, eq_iff, inl, inr, Bool-cases, Option-cases,
}
use craftcontrol.Base.Dict.{
  lookup, contains, insert, remove, lookup-insert, lookup-remove, insert-IsDistinct,
  remove-IsDistinct,
}
use craftcontrol.Base.Rows.{find_last}
use craftcontrol.Players.{
  Locale, Profile, Alias, Session, Tables, player_identity, unify, promote, merge_temporary_player,
  move_sessions, temporary_identity,
}
use craftcontrol.Players.Presence.{
  seen_profile, modify, is_online, is_open, ended, note, open_session, close_session,
  observe_identity, observe_player, or_clock,
}
use craftcontrol.Players.Open.{has_open, find_last-none, has_open-move_self, lookup-modify}
use craftcontrol.Players.Balance.{
  closed_play, number, Fits, Fits-mono, IsBalanced, insert-IsBalanced, modify-IsDistinct,
  open-IsBalanced,
}
use craftcontrol.Players.Balance.Moves.{
  close-IsBalanced, move-IsBalanced, play-move_sessions, number-move_sessions,
}

abbrev pub Balanced : Tables → Type 0
Balanced t = IsBalanced t.profiles t.sessions t.daily

promote-Balanced :
    (a b xuid : String) (p : Profile) (t : Tables)
    → str_eq a b ≡ false
    → lookup a t.profiles ≡ some p
    → Balanced t
    → Balanced (promote a b xuid p t)
unfolding promote
promote-Balanced a b xuid p t n e h =
    let fit : Fits a (some p) t.sessions = subst (λ x. Fits a x t.sessions) e (h.fits a) in
    let q : Profile = record p { xuid = some xuid } in
    move-IsBalanced h a b (insert b q (remove a t.profiles)) n
      (insert-IsDistinct b q _ (remove-IsDistinct a _ h.distinct))
      (ground (
        arith,
        lookup-insert b a q (remove a t.profiles),
        lookup-remove a a t.profiles,
        eq_iff a b,
        eq_iff b a,
        str_eq_refl a,
        n,
      ))
      (rw (lookup-insert b b q (remove a t.profiles), str_eq_refl b)
        (
          λ on. ground (arith, has_open-move_self a b t.sessions n, fit.0 on),
          ground (arith, play-move_sessions b a b t.sessions n, n, str_eq_refl b, fit.1),
          ground (arith, number-move_sessions b a b t.sessions n, n, str_eq_refl b, fit.2),
        ))
      (λ i x y.
        rw (lookup-insert b i q (remove a t.profiles), y, lookup-remove a i t.profiles, x) refl)

merge_temporary_player-Balanced :
    (a b : String) (t : Tables)
    → str_eq a b ≡ false
    → Balanced t
    → Balanced (merge_temporary_player a b t)
unfolding merge_temporary_player
merge_temporary_player-Balanced a b t n h =
    move-IsBalanced h a b (remove a t.profiles) n (remove-IsDistinct a _ h.distinct)
      (rw (lookup-remove a a t.profiles, str_eq_refl a) refl)
      (rw (lookup-remove a b t.profiles, n)
        (Fits-mono b (lookup b t.profiles) t.sessions (move_sessions a b t.sessions)
          (λ on. ground (arith, has_open-move_self a b t.sessions n, on))
          (ground (arith, play-move_sessions b a b t.sessions n, n, str_eq_refl b))
          (ground (arith, number-move_sessions b a b t.sessions n, n, str_eq_refl b)) (h.fits b)))
      (λ i x y. rw (lookup-remove a i t.profiles, x) refl)

unify-Balanced :
    (a b xuid : String) (target : Bool) (t : Tables)
    → str_eq a b ≡ false
    → Balanced t
    → Balanced (unify a b xuid (lookup a t.profiles) target t)
unfolding unify
unify-Balanced a b xuid target t n h = elim (Option-cases (lookup a t.profiles)) [
  | inl e ↦ rw e h
  | inr (p, e) ↦ elim (Bool-cases target) [
    | inl known ↦ rw (e, known) (merge_temporary_player-Balanced a b t n h)
    | inr new ↦ rw (e, new) (promote-Balanced a b xuid p t n e h)
  ]
]

module _ (l : Locale) where
  pub player_identity-Balanced :
      (name xuid : String) (t : Tables) → Balanced t → Balanced (player_identity l name xuid t).0
  unfolding player_identity
  player_identity-Balanced name xuid t h = elim (Bool-cases (str_eq xuid "")) [
    | inl e ↦ rw e h
    | inr n ↦ elim (Bool-cases (str_eq (temporary_identity l name) (concat "xuid:" xuid))) [
      | inl e ↦ rw (n, e) h
      | inr m ↦
          rw (n, m)
            (unify-Balanced (temporary_identity l name) (concat "xuid:" xuid) xuid
              (contains (concat "xuid:" xuid) t.profiles) t m h)
    ]
  ]

seen-bounds :
    (k name : String) (connected : Bool) (xuid : String) (now : ℕ) (o : Option Profile)
    (ss : List Session)
    → Fits k o ss
    → ((seen_profile name connected xuid now o).total_play_seconds ≤ closed_play k ss)
      × ((seen_profile name connected xuid now o).sessions_count ≤ number k ss)
seen-bounds k name connected xuid now none ss h = (omega arith, omega arith)
seen-bounds k name connected xuid now (some p) ss h = (h.1, h.2)

seen-online :
    (name : String) (connected : Bool) (xuid : String) (now : ℕ) (o : Option Profile)
    → (seen_profile name connected xuid now o).online ≡ connected
seen-online name connected xuid now none = refl
seen-online name connected xuid now (some p) = refl

online-has_open :
    (k : String) (o : Option Profile) (ss : List Session)
    → Fits k o ss
    → is_online o ≡ true
    → has_open k ss ≡ true
online-has_open k none ss h on = cc
online-has_open k (some p) ss h on = h.0 on

module _ (l : Locale) where
  close_session-Balanced :
      (k : String) (q : Profile) (xs : List Alias) (now : ℕ) (t : Tables)
      → Balanced t
      → q.online ≡ false
      → q.total_play_seconds ≤ closed_play k t.sessions
      → q.sessions_count ≤ number k t.sessions
      → has_open k t.sessions ≡ true
      → Balanced
          (close_session l k now (record t { profiles = insert k q t.profiles; aliases = xs }))
  unfolding close_session
  close_session-Balanced k q xs now t h off total count was_open =
      elim (Option-cases (find_last (is_open k) t.sessions)) [
        | inl e ↦ absurd (ground (arith, find_last-none (is_open k) t.sessions e, was_open))
        | inr (s, e) ↦
            let f = λ (p : Profile). record p {
              total_play_seconds = p.total_play_seconds + (now - s.connected_at);
            } in
            rw (e, close_session)
              (close-IsBalanced h l k s.connected_at now
                (ended now (now - s.connected_at) "disconnect") (modify k f (insert k q t.profiles))
                (some (f q)) (modify-IsDistinct k f _ (insert-IsDistinct k q _ h.distinct))
                (λ i. ground (
                  arith,
                  lookup-modify k i f (insert k q t.profiles),
                  lookup-insert k i q t.profiles,
                ))
                (off, omega arith, omega arith) (λ x. refl) (λ x. refl) was_open)
      ]

  observe_identity-Balanced :
      (k name : String) (connected : Bool) (xuid source : String) (now : ℕ) (t : Tables)
      → Balanced t
      → Balanced (observe_identity l k name connected xuid source now t).0
  unfolding observe_identity note open_session
  observe_identity-Balanced k name true xuid source now t h =
      let o = lookup k t.profiles in
      let q = seen_profile name true xuid now o in
      let bounds = seen-bounds k name true xuid now o t.sessions (h.fits k) in
      elim (Bool-cases (is_online o)) [
        | inl was ↦
            rw (was, observe_identity)
              (insert-IsBalanced h k q
                ((λ _. online-has_open k o t.sessions (h.fits k) was), bounds.0, bounds.1))
        | inr was_not ↦
            rw (was_not, observe_identity)
              (open-IsBalanced h l k q _ now refl refl bounds.0 bounds.1)
      ]
  observe_identity-Balanced k name false xuid source now t h =
      let o = lookup k t.profiles in
      let q = seen_profile name false xuid now o in
      let bounds = seen-bounds k name false xuid now o t.sessions (h.fits k) in
      let off = seen-online name false xuid now o in
      elim (Bool-cases (is_online o)) [
        | inl was ↦
            rw (was, observe_identity)
              (close_session-Balanced k q _ now t h off bounds.0 bounds.1
                (online-has_open k o t.sessions (h.fits k) was))
        | inr was_not ↦
            rw (was_not, observe_identity)
              (insert-IsBalanced h k q
                ((λ on. absurd (ground (arith, off, on))), bounds.0, bounds.1))
      ]

  pub observe_player-Balanced :
      (name : String) (connected : Bool) (xuid source : String) (occurred : Option ℕ) (clock : ℕ)
      (t : Tables)
      → Balanced t
      → Balanced (observe_player l name connected xuid source occurred clock t).0
  unfolding observe_player
  observe_player-Balanced name connected xuid source occurred clock t h =
      observe_identity-Balanced (player_identity l name xuid t).1 name connected xuid source
        (or_clock occurred clock) (player_identity l name xuid t).0
        (player_identity-Balanced l name xuid t h)
