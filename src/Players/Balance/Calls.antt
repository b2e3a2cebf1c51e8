-- ===== src/Players/Balance/Calls.antt =====
-- players/repository.py: a history of calls keeps the tables balanced.
use craftcontrol.Base.{
  ℕ, ◌+◌, ◌-◌, ◌≡◌, refl, sym, ◌∙◌, true, false, Option, none, some, List, [], ◌∷◌, String, str_eq,
  str_eq→eq, str_eq_refl, any, arith, eq_iff, inl, inr, Bool-cases, Option-cases,
}
use craftcontrol.Base.Dict.{Dict, lookup, IsDistinct}
use craftcontrol.Base.Rows.{update_last, total}
use craftcontrol.Base.Value.{text, bool}
use craftcontrol.Players.{
  Locale, Profile, Session, Tables, empty, player_identity, record_player_history,
}
use craftcontrol.Players.Presence.{new_profile, modify, is_open, event, note}
use craftcontrol.Players.Marks.{
  online_rows, xuid_of, time_or, observe_all, observe_missing, reconcile_online_players,
  close_online, close_all, close_online_sessions, ensure_profile, record_player_death, died,
  has_permission, write_permission, set_player_permission, set_preferred_game_mode, Call, call,
  calls, to_observe, to_reconcile, to_close, to_die, to_permit, to_prefer,
}
use craftcontrol.Players.Open.{has_open, has_open-update_last_other, lookup-modify, mapped}
use craftcontrol.Players.Balance.{
  closed_play, number, Fits, IsBalanced, insert-IsBalanced, modify-IsBalanced, modify-IsDistinct,
  add_daily-IsBalanced,
}
use craftcontrol.Players.Balance.Moves.{Gone, close-IsBalanced}
use craftcontrol.Players.Balance.Accounts.{
  Balanced, player_identity-Balanced, observe_player-Balanced,
}

abbrev Apart : String → List (String × Profile) → Type 0
Apart k [] = Unit {0}
Apart k ((j, p) ∷ rows) = (str_eq k j ≡ false) × Apart k rows

-- The rows that are left have open sessions, and no two of them one identity.
abbrev Ready : List (String × Profile) → List Session → Type 0
Ready [] ss = Unit {0}
Ready ((k, p) ∷ rows) ss = (has_open k ss ≡ true) × Apart k rows × Ready rows ss

online_rows-Apart : (k : String) (ps : Dict Profile) → lookup k ps ≡ none → Apart k (online_rows ps)
unfolding lookup
online_rows-Apart k [] h = tt
online_rows-Apart k ((j, p) ∷ ps) h = elim (Bool-cases (str_eq j k)) [
  | inl same ↦ absurd (ground (arith, h, same))
  | inr other ↦
      let rest = online_rows-Apart k ps (ground (arith, h, other)) in
      elim (Bool-cases p.online) [
        | inl on ↦ rw on (ground (arith, eq_iff k j, eq_iff j k, other), rest)
        | inr off ↦ rw off rest
      ]
]

without :
    (k : String) (p : Profile) (ps : Dict Profile) (ss : List Session)
    → lookup k ps ≡ none
    → ((i : String) → Fits i (lookup i ((k, p) ∷ ps)) ss)
    → (i : String) → Fits i (lookup i ps) ss
unfolding lookup
without k p ps ss n h i = elim (Bool-cases (str_eq k i)) [
  | inl same ↦ rw (sym (str_eq→eq k i same), n) tt
  | inr other ↦ rw other at (h i)
]

online_rows-Ready :
    (ps : Dict Profile) (ss : List Session)
    → IsDistinct ps
    → ((i : String) → Fits i (lookup i ps) ss)
    → Ready (online_rows ps) ss
unfolding lookup
online_rows-Ready [] ss d h = tt
online_rows-Ready ((k, p) ∷ ps) ss d h =
    let fit : Fits k (some p) ss = rw (str_eq_refl k) at (h k) in
    let rest = online_rows-Ready ps ss d.1 (λ i. without k p ps ss d.0 h i) in
    elim (Bool-cases p.online) [
      | inl on ↦ rw on (fit.0 on, online_rows-Apart k ps d.0, rest)
      | inr off ↦ rw off rest
    ]

Ready-update_last :
    (k : String) (f : Session → Session) (rows : List (String × Profile)) (ss : List Session)
    → ((s : Session) → (f s).identity ≡ s.identity)
    → Apart k rows
    → Ready rows ss
    → Ready rows (update_last (is_open k) f ss)
Ready-update_last k f [] ss same a r = tt
Ready-update_last k f ((j, p) ∷ rows) ss same a r = (
  has_open-update_last_other k f same j ss a.0 ∙ r.0,
  r.1,
  Ready-update_last k f rows ss same a.1 r.2,
)

Fits-Gone :
    (k : String) (d : ℕ) (f : Profile → Profile) (o : Option Profile) (ss : List Session)
    → ((p : Profile) → (f p).online ≡ false)
    → ((p : Profile) → (f p).total_play_seconds ≡ p.total_play_seconds + d)
    → ((p : Profile) → (f p).sessions_count ≡ p.sessions_count)
    → Fits k o ss
    → Gone (closed_play k ss + d) (number k ss) (mapped f o)
Fits-Gone k d f none ss a b c h = tt
Fits-Gone k d f (some p) ss a b c h = (a p, omega (arith, b p, h.1), omega (arith, c p, h.2))

module _ (l : Locale) (reason source : String) (now : ℕ) where
  close_online-Balanced :
      (k : String) (p : Profile) (t : Tables)
      → Balanced t
      → has_open k t.sessions ≡ true
      → Balanced (close_online l reason source now (k, p) t)
  unfolding close_online note
  close_online-Balanced k p t h was_open =
      let started = time_or p.connected_at now in
      let f = λ (q : Profile). record q {
        online = false;
        connected_at = none;
        last_seen_at = now;
        total_play_seconds = q.total_play_seconds + (now - started);
      } in
      close-IsBalanced h l k started now _ (modify k f t.profiles) (mapped f (lookup k t.profiles))
        (modify-IsDistinct k f _ h.distinct)
        (λ i. ground (arith, lookup-modify k i f t.profiles, eq_iff k i))
        (Fits-Gone k (now - started) f (lookup k t.profiles) t.sessions (λ q. refl) (λ q. refl)
          (λ q. refl) (h.fits k))
        (λ s. refl) (λ s. refl) was_open

  close_all-Balanced :
      (rows : List (String × Profile)) (t : Tables)
      → Balanced t
      → Ready rows t.sessions
      → Balanced (close_all l reason source now rows t)
  unfolding close_all close_online note
  close_all-Balanced [] t h r = h
  close_all-Balanced ((k, p) ∷ rows) t h r =
      close_all-Balanced rows (close_online l reason source now (k, p) t)
        (close_online-Balanced k p t h r.0)
        (Ready-update_last k _ rows t.sessions (λ s. refl) r.1 r.2)

module _ (l : Locale) where
  observe_all-Balanced :
      (names : List String) (xuids : Dict String) (source : String) (now : ℕ) (t : Tables)
      (seen : List String)
      → Balanced t
      → Balanced (observe_all l names xuids source now t seen).0
  unfolding observe_all
  observe_all-Balanced [] xuids source now t seen h = h
  observe_all-Balanced (name ∷ names) xuids source now t seen h =
      observe_all-Balanced names xuids source now _ _ (
        observe_player-Balanced l name true (xuid_of (lookup name xuids)) source (some now) now t h)

  observe_missing-Balanced :
      (rows : List (String × Profile)) (seen : List String) (source : String) (now : ℕ) (t : Tables)
      → Balanced t
      → Balanced (observe_missing l rows seen source now t)
  unfolding observe_missing
  observe_missing-Balanced [] seen source now t h = h
  observe_missing-Balanced ((k, p) ∷ rows) seen source now t h =
      elim (Bool-cases (any (str_eq k) seen)) [
        | inl there ↦
            rw (there, observe_missing) (observe_missing-Balanced rows seen source now t h)
        | inr missing ↦
            rw (missing, observe_missing)
              (observe_missing-Balanced rows seen source now _
                (observe_player-Balanced l p.current_name false "" source (some now) now t h))
      ]

  ensure_profile-IsBalanced :
      (k name : String) (now : ℕ) (t : Tables)
      → Balanced t
      → IsBalanced (ensure_profile k (new_profile name now) t.profiles) t.sessions t.daily
  unfolding ensure_profile
  ensure_profile-IsBalanced k name now t h = elim (Option-cases (lookup k t.profiles)) [
    | inr (p, e) ↦ rw (e, ensure_profile) h
    | inl e ↦
        rw (e, ensure_profile)
          (insert-IsBalanced h k (new_profile name now) ((λ on. cc), omega arith, omega arith))
  ]

  record_player_death-Balanced :
      (name cause raw source event_key : String) (now : ℕ) (t : Tables)
      → Balanced t
      → Balanced (record_player_death l name cause raw source event_key now t).0
  unfolding record_player_death
  record_player_death-Balanced name cause raw source event_key now t h =
      let t1 = (player_identity l name "" t).0 in
      let k = (player_identity l name "" t).1 in
      let h1 = ensure_profile-IsBalanced k name now t1 (player_identity-Balanced l name "" t h) in
      elim (Bool-cases
        (record_player_history
          (event k "player.death" now source
            (("name", text name)
              ∷ ("cause", text cause)
              ∷ ("raw", text raw)
              ∷ ("derived", bool true)
              ∷ [])
            (some event_key))
          t1.history).1) [
            | inr old ↦ rw (old, record_player_death) h1
            | inl new ↦
                rw (new, record_player_death)
                  (add_daily-IsBalanced
                    (modify-IsBalanced h1 k
                      (λ p. record p {
                        deaths_count = p.deaths_count + 1;
                        last_death_at = some now;
                        last_seen_at = now;
                      })
                      (λ p. refl) (λ p. refl) (λ p. refl))
                    l k now died refl refl)
          ]

  set_player_permission-Balanced :
      (name permission source : String) (now : ℕ) (t : Tables)
      → Balanced t
      → Balanced (set_player_permission l name permission source now t)
  unfolding set_player_permission note
  set_player_permission-Balanced name permission source now t h =
      let t1 = (player_identity l name "" t).0 in
      let k = (player_identity l name "" t).1 in
      let h1 : Balanced t1 = player_identity-Balanced l name "" t h in
      let h2 : IsBalanced (write_permission k name permission now t1.profiles) t1.sessions
          t1.daily =
        elim (Option-cases (lookup k t1.profiles)) [
          | inl e ↦ rw e (
              insert-IsBalanced h1 k (record (new_profile name now) { permission = permission })
                ((λ on. cc), omega arith, omega arith))
          | inr (p, e) ↦ rw e (
              modify-IsBalanced h1 k (λ q. record q { permission = permission }) (λ q. refl)
                (λ q. refl) (λ q. refl))
        ] in
      elim (Bool-cases (has_permission permission (lookup k t1.profiles))) [
        | inl same ↦ rw (same, set_player_permission) h2
        | inr other ↦ rw (other, set_player_permission) h2
      ]

  set_preferred_game_mode-Balanced :
      (name : String) (mode : Option String) (t : Tables)
      → Balanced t
      → Balanced (set_preferred_game_mode l name mode t)
  unfolding set_preferred_game_mode
  set_preferred_game_mode-Balanced name mode t h =
      modify-IsBalanced (player_identity-Balanced l name "" t h) (player_identity l name "" t).1
        (λ p. record p { preferred_game_mode = mode }) (λ p. refl) (λ p. refl) (λ p. refl)

  call-Balanced : (c : Call) (t : Tables) → Balanced t → Balanced (call l c t)
  unfolding call reconcile_online_players close_online_sessions
  call-Balanced (to_observe name connected xuid source occurred clock) t h =
      observe_player-Balanced l name connected xuid source occurred clock t h
  call-Balanced (to_reconcile players xuids source now) t h =
      let after = observe_all l players xuids source now t [] in
      observe_missing-Balanced (online_rows after.0.profiles) after.1 source now after.0
        (observe_all-Balanced players xuids source now t [] h)
  call-Balanced (to_close reason source now) t h =
      close_all-Balanced l reason source now (online_rows t.profiles) t h
        (online_rows-Ready t.profiles t.sessions h.distinct h.fits)
  call-Balanced (to_die name cause raw source event_key now) t h =
      record_player_death-Balanced name cause raw source event_key now t h
  call-Balanced (to_permit name permission source now) t h =
      set_player_permission-Balanced name permission source now t h
  call-Balanced (to_prefer name mode) t h = set_preferred_game_mode-Balanced name mode t h

  calls-Balanced_from : (cs : List Call) (t : Tables) → Balanced t → Balanced (calls l cs t)
  unfolding calls
  calls-Balanced_from [] t h = h
  calls-Balanced_from (c ∷ cs) t h = calls-Balanced_from cs (call l c t) (call-Balanced c t h)

-- Whatever players come and go, die, are reconciled, permitted or disconnected by the end of the
-- server, in whatever order and at whatever times, where each call ends before the next begins, and
-- however identities are merged: from empty tables, the closed sessions of an identity last, together,
-- as long as its days say, and its sessions, open and closed, are as many as its days say; its profile
-- counts no more time and no more sessions than these; and a player who is online has an open session.
pub calls-Balanced : (l : Locale) (cs : List Call) → Balanced (calls l cs empty)
unfolding total lookup
calls-Balanced l cs =
    calls-Balanced_from l cs empty
      (record { distinct = tt; fits = λ i. tt; played = λ i. refl; counted = λ i. refl })
