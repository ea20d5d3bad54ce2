-- ===== src/Transport/Store/Runs.antt =====
-- Runs of a store: the atomic operations of concurrent callers, in the order in which the backend
-- makes them, against a map from keys to values with deadlines.
use oidc4rs.Prelude.{
  ◌+◌, ◌≤◌, ◌<◌, ◌≡◌, refl, ap, ◌∙◌, inl, inr, Bool, true, false, Option, none, some, List, [], ◌∷◌,
  arith, ltb, if◌then◌else◌, Option-cases, Result, ok, Bytes, eqb,
}
use oidc4rs.Transport.Store.{KvStore, IsAtomic, Instant, KvError, Duration, instant_limit}

-- One caller's operation with the instant that it reads.
pub data Call : Type 0 where
  put : Instant → Bytes → Bytes → Duration → Call
  taking : Instant → Bytes → Call

pub data Reply : Type 0 where
  put_said : Result KvError Bool → Reply
  take_said : Result KvError (Option Bytes) → Reply

unfoldable pub replies : (kv : KvStore) → kv.State → List Call → List Reply
replies kv s [] = []
replies kv s (put now key value ttl ∷ cs) =
    let (r, s') = kv.put_if_absent now key value ttl s in put_said r ∷ replies kv s' cs
replies kv s (taking now key ∷ cs) =
    let (r, s') = kv.take now key s in take_said r ∷ replies kv s' cs

-- The abstract map. It never forgets an expired value, which only its deadline hides.
abbrev pub Contents : Type 0
Contents = Bytes → Option (Bytes × Instant)

abbrev pub valid : Instant → Option (Bytes × Instant) → Option Bytes
valid now none = none
valid now (some (value, deadline)) = if ltb now deadline then some value else none

abbrev pub set : Bytes → Option (Bytes × Instant) → Contents → Contents
set key entry f k = if eqb key k then entry else f k

unfoldable pub spec_replies : Contents → List Call → List Reply
spec_replies f [] = []
spec_replies f (put now key value ttl ∷ cs) = elim (valid now (f key)) [
  | none ↦ put_said (ok true) ∷ spec_replies (set key (some (value, now + ttl)) f) cs
  | some old ↦ put_said (ok false) ∷ spec_replies f cs
]
spec_replies f (taking now key ∷ cs) =
    take_said (ok (valid now (f key))) ∷ spec_replies (set key none f) cs

-- The clock never goes back from call to call, and every lifetime is positive and fits it.
abbrev pub AreOrdered : Instant → List Call → Type 0
AreOrdered from [] = Unit
AreOrdered from (put now key value ttl ∷ cs) =
    (from ≤ now) × (0 < ttl) × (now + ttl < instant_limit) × AreOrdered now cs
AreOrdered from (taking now key ∷ cs) = (from ≤ now) × AreOrdered now cs

module _ (kv : KvStore) (laws : IsAtomic kv) where
  open laws use {
    view, Answers, take_ok, take_answers, view-take, put_answers, put_vacant, put_occupied,
  }

  -- The backend answers, and reads as the map from an instant on.
  pub record Reads (from : Instant) (s : kv.State) (f : Contents) : Type 0 where
    pub answers : Answers s
    pub same : (later : Instant) (k : Bytes) → from ≤ later → view later s k ≡ valid later (f k)

  Reads-take :
      (from now : Instant) (key : Bytes) (s : kv.State) (f : Contents)
      → from ≤ now
      → Reads from s f
      → Reads now (kv.take now key s).1 (set key none f)
  Reads-take from now key s f le w = record {
    answers = take_answers now key s w.answers;
    same = λ later k h.
        ground (arith, view-take now later key k s w.answers, w.same later k (omega arith));
  }

  Reads-put_vacant :
      (from now : Instant) (key value : Bytes) (ttl : Duration) (s : kv.State) (f : Contents)
      → from ≤ now
      → 0 < ttl
      → now + ttl < instant_limit
      → valid now (f key) ≡ none
      → Reads from s f
      → ((kv.put_if_absent now key value ttl s).0 ≡ ok true)
        × Reads now (kv.put_if_absent now key value ttl s).1 (set key (some (value, now + ttl)) f)
  Reads-put_vacant from now key value ttl s f le pos fits vac w =
      let free : view now s key ≡ none = w.same now key le ∙ vac in
      (
        (put_vacant now now key value ttl s key w.answers pos fits free (omega arith)).0,
        record {
          answers = put_answers now key value ttl s w.answers;
          same = λ later k h. ground (
            arith,
            put_vacant now later key value ttl s k w.answers pos fits free h,
            w.same later k (omega arith),
          );
        },
      )

  Reads-put_occupied :
      (from now : Instant) (key value : Bytes) (ttl : Duration) (s : kv.State) (f : Contents)
      (old : Bytes)
      → from ≤ now
      → 0 < ttl
      → now + ttl < instant_limit
      → valid now (f key) ≡ some old
      → Reads from s f
      → ((kv.put_if_absent now key value ttl s).0 ≡ ok false)
        × Reads now (kv.put_if_absent now key value ttl s).1 f
  Reads-put_occupied from now key value ttl s f old le pos fits occ w =
      let held : view now s key ≡ some old = w.same now key le ∙ occ in
      (
        (put_occupied now now key value ttl s old key w.answers pos fits held (omega arith)).0,
        record {
          answers = put_answers now key value ttl s w.answers;
          same = λ later k h.
              (put_occupied now later key value ttl s old k w.answers pos fits held h).1
              ∙ w.same later k (omega arith);
        },
      )

  -- A store that keeps the contract of the trait replies to every run of ordered calls as the
  -- abstract map does, from any state in which its backend answers and it reads as the map.
  pub replies_refine :
      (from : Instant) (s : kv.State) (f : Contents) (calls : List Call)
      → Reads from s f
      → AreOrdered from calls
      → replies kv s calls ≡ spec_replies f calls
  unfolding replies spec_replies
  replies_refine from s f [] w o = refl
  replies_refine from s f (taking now key ∷ cs) w (le, o) =
      rw (take_ok now key s w.answers, w.same now key le)
        (ap (λ rs. take_said (ok (valid now (f key))) ∷ rs)
          (replies_refine now (kv.take now key s).1 (set key none f) cs
            (Reads-take from now key s f le w) o))
  replies_refine from s f (put now key value ttl ∷ cs) w (le, pos, fits, o) =
      elim (Option-cases (valid now (f key))) [
        | inl vac ↦
            let (said, after) = Reads-put_vacant from now key value ttl s f le pos fits vac w in
            rw (spec_replies, vac, said)
              (ap (λ rs. put_said (ok true) ∷ rs) (replies_refine now _ _ cs after o))
        | inr (old, occ) ↦
            let (said, after) =
              Reads-put_occupied from now key value ttl s f old le pos fits occ w in
            rw (spec_replies, occ, said)
              (ap (λ rs. put_said (ok false) ∷ rs) (replies_refine now _ f cs after o))
      ]
