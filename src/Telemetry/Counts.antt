-- ===== src/Telemetry/Counts.antt =====
-- telemetry/service.py: what the diagnostics count for each envelope.
use craftcontrol.Base.{ℕ, ◌+◌, ◌≡◌, arith}
use craftcontrol.Telemetry.{
  Topic, Envelope, Diagnostics, Clock, Place, count_topic, count_refused, count_sequence,
  count_duplicate, count_accepted, count_content,
}

-- The envelopes that were accepted, rejected and attempted, after so many more.
pub record More (a r n : ℕ) (d d' : Diagnostics) : Type 0 where
  pub accepted : d'.accepted ≡ d.accepted + a
  pub rejected : d'.rejected ≡ d.rejected + r
  pub attempted : d'.attempted ≡ d.attempted + n

pub count_refused-More :
    (t : Topic) (p : Place) (c : Clock) (d : Diagnostics) → More 0 1 1 d (count_refused t p c d)
unfolding count_refused count_topic
count_refused-More t p c d = ground arith

count_sequence-More :
    (t : Topic) (p : Place) (c : Clock) (d : Diagnostics) → More 0 0 0 d (count_sequence t p c d)
unfolding count_sequence count_topic
count_sequence-More t p c d = ground arith

count_duplicate-More :
    (t : Topic) (c : Clock) (d : Diagnostics) → More 0 1 1 d (count_duplicate t c d)
unfolding count_duplicate count_topic
count_duplicate-More t c d = ground arith

count_content-More :
    (t : Topic) (e : Envelope) (c : Clock) (d : Diagnostics) → More 0 0 0 d (count_content t e c d)
count_content-More t e c d = ground arith

count_accepted-More :
    (e : Envelope) (c : Clock) (d : Diagnostics) → More 1 0 1 d (count_accepted e c d)
unfolding count_accepted count_topic
count_accepted-More e c d = ground (
  arith,
  count_content-More e.topic e c (
      count_topic e.topic (λ m. record m { accepted = m.accepted + 1 })
        (record d { accepted = d.accepted + 1 })),
)

More-trans :
    {d d' d'' : Diagnostics} {a r n : ℕ} → More 0 0 0 d d' → More a r n d' d'' → More a r n d d''
More-trans h k = ground (arith, h, k)

pub duplicate-More :
    (t : Topic) (p : Place) (c : Clock) (d : Diagnostics)
    → More 0 1 1 d (count_duplicate t c (count_sequence t p c d))
duplicate-More t p c d =
    More-trans (count_sequence-More t p c d) (count_duplicate-More t c (count_sequence t p c d))

pub accepted-More :
    (e : Envelope) (p : Place) (c : Clock) (d : Diagnostics)
    → More 1 0 1 d (count_accepted e c (count_sequence e.topic p c d))
accepted-More e p c d =
    More-trans (count_sequence-More e.topic p c d)
      (count_accepted-More e c (count_sequence e.topic p c d))
