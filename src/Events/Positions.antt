-- ===== src/Events/Positions.antt =====
-- core/events.py: the stream at a position of the list, after what is done to the streams.
use craftcontrol.Base.{ℕ, zero, suc, ◌≡◌, false, some, List, [], ◌∷◌, ◌++◌, map, ◌==◌, arith}
use craftcontrol.Events.{Stream, nth, modify_at}

pub nth-map :
    (f : Stream → Stream) (i : ℕ) (ss : List Stream) (s : Stream)
    → nth i ss ≡ some s
    → nth i (map f ss) ≡ some (f s)
unfolding nth
nth-map f i [] s h = cc
nth-map f zero (x ∷ ss) s h = ground (arith, h)
nth-map f (suc i) (x ∷ ss) s h = nth-map f i ss s h

pub nth-append :
    (i : ℕ) (ss : List Stream) (s t : Stream) → nth i ss ≡ some s → nth i (ss ++ t ∷ []) ≡ some s
unfolding nth
nth-append i [] s t h = cc
nth-append zero (x ∷ ss) s t h = h
nth-append (suc i) (x ∷ ss) s t h = nth-append i ss s t h

pub nth-modify_at :
    (f : Stream → Stream) (i : ℕ) (ss : List Stream) (s : Stream)
    → nth i ss ≡ some s
    → nth i (modify_at i f ss) ≡ some (f s)
unfolding nth modify_at
nth-modify_at f i [] s h = cc
nth-modify_at f zero (x ∷ ss) s h = ground (arith, h)
nth-modify_at f (suc i) (x ∷ ss) s h = nth-modify_at f i ss s h

pub nth-modify_at_other :
    (f : Stream → Stream) (i j : ℕ) (ss : List Stream) (s : Stream)
    → (i == j) ≡ false
    → nth i ss ≡ some s
    → nth i (modify_at j f ss) ≡ some s
unfolding nth modify_at
nth-modify_at_other f i j [] s n h = cc
nth-modify_at_other f zero zero (x ∷ ss) s n h = ground (arith, n)
nth-modify_at_other f zero (suc j) (x ∷ ss) s n h = h
nth-modify_at_other f (suc i) zero (x ∷ ss) s n h = h
nth-modify_at_other f (suc i) (suc j) (x ∷ ss) s n h =
    nth-modify_at_other f i j ss s (ground (arith, n)) h
