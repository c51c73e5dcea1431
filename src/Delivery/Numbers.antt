-- ===== src/Delivery/Numbers.antt =====
-- The numbers of the delivery theorem: the generation and the header of each packet of a stream, and
-- when an arrival is within reach.
use safe_cast.Base.{
  ℕ, zero, suc, ◌+◌, ◌-◌, ◌*◌, ◌/◌, ◌%◌, ◌^◌, ◌≤◌, ◌<◌, ◌≡◌, ◌≢◌, ◌∙◌, refl, sym, ap, arith, max,
  List, [], ◌∷◌, Bool, Bool-cases, inl, inr, true, false, Option, none, some, get_or, ltb, lt→ltb,
  le→ltb, ◌==◌, ==_iff, if◌then◌else◌, from_be32, be16, be32, from_be16-be16, from_be32-be32, ret,
}
use native.Mathlib.Nat
use native.Mathlib.Nat.{div-add-mod, mod-lt, div-eq_of_lt-le, mul-le-mul_left}
use native.Mathlib.Decide.{dec_le}
use safe_cast.Keying.Granularity.{
  Granularity, epoch_only, per_frame, per_packet, every_n, crossed_boundary, changed,
}
use safe_cast.Keying.Granularity.Boundary.{IsUsable, boundary_lem, next-rest, next-whole}
use safe_cast.Simulation.Sender.{StreamModel, packet_timestamp, plain_packet}
use safe_cast.Receiver.IndexRecovery.{raise}
use safe_cast.Delivery.Link.{IsNumbered, IsNear}
use safe_cast.Delivery.{generation_of}

-- With one key per frame, the packets below `count` lie in the first 2^32 ticks of the stream.
abbrev pub InTicks : Granularity → StreamModel → ℕ → Type 0
InTicks epoch_only model count = Unit
InTicks per_frame model count = count / model.ppf * 1500 < 2 ^ 32
InTicks per_packet model count = Unit
InTicks (every_n n) model count = Unit

pub div_mono : (n i j : ℕ) → 0 < n → i ≤ j → i / n ≤ j / n
div_mono n i j pos h = elim (dec_le (i / n) (j / n)) [
  | yes le ↦ le
  | no gt ↦ absurd (
      omega (
        arith,
        div-add-mod i n,
        div-add-mod j n,
        mod-lt j pos,
        mul-le-mul_left n (let e : j / n + 1 ≤ i / n = omega arith in e),
        distributes (j / n),
      ))
]
  where
    distributes : (q : ℕ) → n * (q + 1) ≡ n * q + n
    distributes q = grind arith

module _ (granularity : Granularity) (model : StreamModel) (usable : IsUsable granularity)
    (framed : 0 < model.ppf) where
  pub generation_mono :
      (i j : ℕ) → i ≤ j → generation_of granularity model i ≤ generation_of granularity model j
  generation_mono i j h = go granularity usable
    where
      go : (gr : Granularity) → IsUsable gr → generation_of gr model i ≤ generation_of gr model j
      go epoch_only u = omega arith
      go per_frame u = div_mono model.ppf i j framed h
      go per_packet u = h
      go (every_n n) u = div_mono n i j u h

pub generation-zero :
    (granularity : Granularity) (model : StreamModel) → generation_of granularity model 0 ≡ 0
generation-zero epoch_only model = refl
generation-zero per_frame model = Nat.zero-div model.ppf
generation-zero per_packet model = refl
generation-zero (every_n n) model = Nat.zero-div n

-- How many generations the packets below `n` have.
abbrev pub generations : Granularity → StreamModel → ℕ → ℕ
generations granularity model zero = 0
generations granularity model (suc j) = suc (generation_of granularity model j)

-- Within the first 2^32 ticks a frame's timestamp is its number times the frame period.
stamp-eq :
    (model : StreamModel) (i : ℕ)
    → i / model.ppf * 1500 < 2 ^ 32
    → packet_timestamp model i ≡ i / model.ppf * 1500
unfolding packet_timestamp
stamp-eq model i h = omega (arith, h)

pub InTicks-le :
    (granularity : Granularity) (model : StreamModel) (i count : ℕ)
    → 0 < model.ppf
    → i ≤ count
    → InTicks granularity model count
    → InTicks granularity model i
InTicks-le epoch_only model i count framed le h = tt
InTicks-le per_frame model i count framed le h =
    omega (arith, h, div_mono model.ppf i count framed le)
InTicks-le per_packet model i count framed le h = tt
InTicks-le (every_n n) model i count framed le h = tt

-- The timestamp of the packet before.
abbrev pub stamp_before : StreamModel → ℕ → Option ℕ
stamp_before model zero = none
stamp_before model (suc j) = some (packet_timestamp model j)

choice :
    (b : Bool) (g n : ℕ)
    → (b ≡ true → n ≡ g + 1)
    → (b ≡ false → n ≡ g)
    → (if b then g + 1 else g) ≡ n
choice true g n t f = sym (t refl)
choice false g n t f = sym (f refl)

stamps_differ :
    (a a' : ℕ) (b : Bool) → changed (some a) a' ≡ b → (b ≡ true → a ≢ a') × (b ≡ false → a ≡ a')
stamps_differ a a' b h = elim (Bool-cases (a == a')) [
  | inl e ↦ (λ t. absurd (cc), λ f. (==_iff a a').0 e)
  | inr e ↦ (λ t q. absurd (cc ((==_iff a a').1 q)), λ f. absurd (cc))
]

-- One packet and the next are of one frame exactly if their timestamps agree.
frame_crossing :
    (model : StreamModel) (j g : ℕ) (b : Bool)
    → 0 < model.ppf
    → InTicks per_frame model (suc j)
    → g ≡ j / model.ppf
    → changed (some (packet_timestamp model j)) (packet_timestamp model (suc j)) ≡ b
    → (if b then g + 1 else g) ≡ suc j / model.ppf
frame_crossing model j g b framed ticks here test = elim (dec_le model.ppf (j % model.ppf + 1)) [
  | yes whole ↦
      let (q, _) = next-whole j model.ppf (omega (arith, mod-lt j framed)) in
      let q' : suc j / model.ppf ≡ j / model.ppf + 1 = ap (λ x. x / model.ppf) one ∙ q in
      choice b g (suc j / model.ppf) (λ t. omega (arith, q', here))
        (λ f. absurd (omega (arith, differ.1 f, stamp, stamp', q')))
  | no rest ↦
      let (q, _) = next-rest j model.ppf (omega arith) in
      let q' : suc j / model.ppf ≡ j / model.ppf = ap (λ x. x / model.ppf) one ∙ q in
      choice b g (suc j / model.ppf) (λ t. absurd (differ.0 t (omega (arith, stamp, stamp', q'))))
        (λ f. omega (arith, q', here))
]
  where
    one : suc j ≡ j + 1
    one = omega arith

    stamp : packet_timestamp model j ≡ j / model.ppf * 1500
    stamp = stamp-eq model j (InTicks-le per_frame model j (suc j) framed (omega arith) ticks)

    stamp' : packet_timestamp model (suc j) ≡ suc j / model.ppf * 1500
    stamp' = stamp-eq model (suc j) ticks

    differ :
        (b ≡ true → packet_timestamp model j ≢ packet_timestamp model (suc j))
        × (b ≡ false → packet_timestamp model j ≡ packet_timestamp model (suc j))
    differ = stamps_differ (packet_timestamp model j) (packet_timestamp model (suc j)) b test

same_bool : (a b : Bool) → ret a ≡ ret b → a ≡ b
same_bool a b e = cc

first_test :
    (started : Bool) (ts : ℕ)
    → started ≡ ltb 0 0
    → crossed_boundary per_frame started none 0 ts ≡ ret false
unfolding crossed_boundary
first_test started ts e = rw e

next_test :
    (started : Bool) (j : ℕ) (last : Option ℕ) (ts : ℕ)
    → started ≡ ltb 0 (suc j)
    → crossed_boundary per_frame started last (suc j) ts ≡ ret (changed last ts)
unfolding crossed_boundary
next_test started j last ts e = rw (e, lt→ltb 0 (suc j) (omega arith))

-- The sender's boundary test begins the generations of `generation_of`.
pub crossing_lem :
    (granularity : Granularity) (model : StreamModel) (i g : ℕ) (started b : Bool)
    → IsUsable granularity
    → 0 < model.ppf
    → InTicks granularity model i
    → started ≡ ltb 0 i
    → g ≡ generation_of granularity model (i - 1)
    → (crossed_boundary granularity started (stamp_before model i) i (packet_timestamp model i)
        ≡ ret b)
    → (if b then g + 1 else g) ≡ generation_of granularity model i
crossing_lem epoch_only model i g started b u framed ticks began here test =
    let (b', e, at) = boundary_lem epoch_only started (stamp_before model i) i g _ u began here in
    rw (same_bool b b' (sym test ∙ e)) at
crossing_lem per_packet model i g started b u framed ticks began here test =
    let (b', e, at) = boundary_lem per_packet started (stamp_before model i) i g _ u began here in
    rw (same_bool b b' (sym test ∙ e)) at
crossing_lem (every_n n) model i g started b u framed ticks began here test =
    let (b', e, at) = boundary_lem (every_n n) started (stamp_before model i) i g _ u began here in
    rw (same_bool b b' (sym test ∙ e)) at
crossing_lem per_frame model zero g started b u framed ticks began here test =
    choice b g (0 / model.ppf)
      (λ t. absurd (cc (same_bool false b (sym (first_test started _ began) ∙ test))))
      (λ f. sym here)
crossing_lem per_frame model (suc j) g started b u framed ticks began here test =
    frame_crossing model j g b framed ticks
      (here ∙ ap (λ x. x / model.ppf) (let e : suc j - 1 ≡ j = omega arith in e))
      (same_bool _ b (sym (next_test started j _ _ began) ∙ test))

-- The header of a packet of the stream.
packet_timestamp-lt : (model : StreamModel) (i : ℕ) → packet_timestamp model i < 2 ^ 32
unfolding packet_timestamp
packet_timestamp-lt model i = omega arith

pub plain_packet-IsNumbered :
    (model : StreamModel) (i : ℕ)
    → model.ssrc < 2 ^ 32
    → IsNumbered (plain_packet model i) model.ssrc i
unfolding plain_packet be16 be32
plain_packet-IsNumbered model i h = record {
  has_header = omega arith;
  sequence = from_be16-be16 (i % 2 ^ 16) (omega arith);
  source = from_be32-be32 model.ssrc h;
}

pub plain_packet-stamp :
    (model : StreamModel) (i : ℕ)
    → let p = plain_packet model i in
      from_be32 (get_or p 4 0) (get_or p 5 0) (get_or p 6 0) (get_or p 7 0)
      ≡ packet_timestamp model i
unfolding plain_packet be16 be32
plain_packet-stamp model i = from_be32-be32 (packet_timestamp model i) (packet_timestamp-lt model i)

-- The highest index below `n`, and what the receiver's recovery keeps of it: the schemes that recover
-- no index leave it alone.
abbrev pub last_below : ℕ → Option ℕ
last_below zero = none
last_below (suc j) = some j

abbrev pub kept_index : Granularity → Option ℕ → Option ℕ
kept_index epoch_only index = none
kept_index per_frame index = none
kept_index per_packet index = index
kept_index (every_n n) index = index

-- The arrival of packet `i` at a receiver whose highest packet is the one before `next`, with `k` key
-- slots: its generation is in the key window or at most `seek_cap` generations ahead.
pub record IsInReach (granularity : Granularity) (model : StreamModel)
    (count k seek_cap window next i : ℕ) : Type 0 where
  pub is_sent : i < count
  pub near : IsNear next window i
  pub in_slots : generations granularity model next ≤ generation_of granularity model i + k
  pub in_cap :
      suc (generation_of granularity model i) ≤ generations granularity model next + seek_cap

-- Every arrival is, with the highest packet of the arrivals before.
abbrev pub AreInReach :
    Granularity → StreamModel → (count k seek_cap window next : ℕ) → List ℕ → Type 0
AreInReach granularity model count k seek_cap window next [] = Unit
AreInReach granularity model count k seek_cap window next (i ∷ l) =
    IsInReach granularity model count k seek_cap window next i
    × AreInReach granularity model count k seek_cap window (max next (suc i)) l

pub last_below-max : (next i : ℕ) → last_below (max next (suc i)) ≡ (raise (last_below next) i)
unfolding raise
last_below-max zero i = ap last_below (let e : max 0 (suc i) ≡ suc i = omega arith in e)
last_below-max (suc j) i = elim (dec_le (suc i) (suc j)) [
  | yes le ↦
      ap last_below (let e : max (suc j) (suc i) ≡ suc j = omega arith in e)
      ∙ rw (le→ltb j i (omega arith)) refl
  | no gt ↦
      ap last_below (let e : max (suc j) (suc i) ≡ suc i = omega arith in e)
      ∙ rw (lt→ltb j i (omega arith)) refl
]

pub generations-max :
    (granularity : Granularity) (model : StreamModel) (next i : ℕ)
    → IsUsable granularity
    → 0 < model.ppf
    → generations granularity model (max next (suc i))
      ≡ max (generations granularity model next) (suc (generation_of granularity model i))
generations-max granularity model zero i usable framed =
    ap (generations granularity model) (let e : max 0 (suc i) ≡ suc i = omega arith in e)
    ∙ omega arith
generations-max granularity model (suc j) i usable framed = elim (dec_le i j) [
  | yes le ↦
      ap (generations granularity model) (let e : max (suc j) (suc i) ≡ suc j = omega arith in e)
      ∙ omega (arith, generation_mono granularity model usable framed i j le)
  | no gt ↦
      ap (generations granularity model) (let e : max (suc j) (suc i) ≡ suc i = omega arith in e)
      ∙ omega (arith, generation_mono granularity model usable framed j i (omega arith))
]

pub generation-le :
    (granularity : Granularity) (model : StreamModel) (i : ℕ)
    → generation_of granularity model i ≤ i
generation-le epoch_only model i = omega arith
generation-le per_frame model i = Nat.div-le_self i model.ppf
generation-le per_packet model i = omega arith
generation-le (every_n n) model i = Nat.div-le_self i n
