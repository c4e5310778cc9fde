-- ===== src/Offset.antt =====
-- Kafka offsets as the pipeline keeps them: a number, or -1 where none is known yet. `none` is
-- the -1, so it lies below every offset.
use wikistream_kafka.Prelude.{
  ℕ, ◌+◌, ◌≤◌, ◌≡◌, ◌↔◌, Keyed, nat_eq, ◌==◌, Bool, true, false, Option, none, some, arith, ltb,
  if◌then◌else◌,
}

abbrev pub Offset : Type 0
Offset = Option ℕ

-- `a < b`
abbrev pub before : Offset → Offset → Bool
before none none = false
before none (some n) = true
before (some m) none = false
before (some m) (some n) = ltb m n

-- `a < 0`
abbrev pub unset : Offset → Bool
unset none = true
unset (some n) = false

-- Python's `max(a, b)` and `min(a, b)`
abbrev pub later : Offset → Offset → Offset
later a b = if before a b then b else a

abbrev pub earlier : Offset → Offset → Offset
earlier a b = if before b a then b else a

-- `a + 1`
abbrev pub next : Offset → Offset
next none = some 0
next (some n) = some (n + 1)

-- `a ≤ b`, as a statement.
abbrev pub AtMost : Offset → Offset → Type 0
AtMost none b = Unit
AtMost (some m) none = ⊥
AtMost (some m) (some n) = m ≤ n

pub AtMost-refl : (a : Offset) → AtMost a a
AtMost-refl none = tt
AtMost-refl (some m) = omega arith

pub AtMost-trans : (a b c : Offset) → AtMost a b → AtMost b c → AtMost a c
AtMost-trans none b c h k = tt
AtMost-trans (some m) none c h k = absurd h
AtMost-trans (some m) (some n) none h k = k
AtMost-trans (some m) (some n) (some o) h k = omega arith

pub earlier-AtMost : (a b : Offset) → AtMost (earlier a b) a × AtMost (earlier a b) b
earlier-AtMost none none = (tt, tt)
earlier-AtMost none (some n) = (tt, tt)
earlier-AtMost (some m) none = (tt, tt)
earlier-AtMost (some m) (some n) = ground arith

abbrev pub offset_beq : Offset → Offset → Bool
offset_beq none none = true
offset_beq none (some n) = false
offset_beq (some m) none = false
offset_beq (some m) (some n) = m == n

pub offset_beq_iff : (a b : Offset) → (offset_beq a b ≡ true) ↔ (a ≡ b)
offset_beq_iff none none = ground arith
offset_beq_iff none (some n) = ground arith
offset_beq_iff (some m) none = ground arith
offset_beq_iff (some m) (some n) = ground arith

instance abbrev pub offset_eq : Keyed Offset
offset_eq = record { same = offset_beq; same_iff = offset_beq_iff }
