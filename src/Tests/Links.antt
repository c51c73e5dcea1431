-- ===== src/Tests/Links.antt =====
-- A concrete libsrtp that tells keys and indices apart, and a stream over a network that reorders,
-- duplicates and loses packets.
use safe_cast.Base.{
  ℕ, suc, ◌+◌, ◌-◌, ◌^◌, ◌≤◌, ◌<◌, ◌≡◌, ◌∙◌, refl, sym, ap, ap₂, arith, max, mem, List, [], ◌∷◌,
  ◌++◌, Bytes, Bool, true, false, some, length, length-append, length-take, length-replicate,
  replicate, take, drop, take-append_exact, drop-append_exact, get_or, bytes_eq, bytes_eq_refl,
  from_be16,
}
use safe_cast.Tests.Instances.{guarded, guarded_accepts, guarded_refuses, guarded_is}
use safe_cast.Crypto.{window_of, Srtp, SrtpResult, ok, err, replay_fail, auth_fail}
use safe_cast.Receiver.IndexRecovery.{recover}
use safe_cast.Delivery.Link.{SrtpLink, IsNumbered, IsNear}
use safe_cast.Delivery.Numbers.{last_below}
use safe_cast.Delivery.Opening.{recovered}
use safe_cast.Tests.Libraries.{get_or-append}

-- A session with its stream, the key and salt, one past the highest index, and the indices opened.
pub record Rdbx : Type 0 where
  pub ssrc : ℕ
  pub key : Bytes
  pub salt : Bytes
  pub next : ℕ
  pub done : List ℕ
  pub window : ℕ

-- The tag of 16 bytes is made of the key.
abbrev tag_of : Bytes → Bytes
tag_of key = take 16 (key ++ replicate 16 0)

length-tag_of : (key : Bytes) → length (tag_of key) ≡ 16
length-tag_of key = omega (
  arith,
  length-take 16 (key ++ replicate 16 0),
  length-append key (replicate 16 0),
  length-replicate {A = ℕ} 16 0,
)

-- The index that the sequence number stands for.
abbrev index_of : Rdbx → Bytes → ℕ
index_of s buf =
    recover (record { highest = last_below s.next }) (from_be16 (get_or buf 2 0) (get_or buf 3 0))

-- The answer after the tag and the index were looked at.
abbrev opened : Rdbx → Bytes → ℕ → (genuine again : Bool) → Rdbx × Bytes × SrtpResult
opened s buf i false again = (s, buf, err auth_fail)
opened s buf i true true = (s, buf, err replay_fail)
opened s buf i true false =
    (record s { next = max s.next (suc i); done = i ∷ s.done }, take (length buf - 16) buf, ok)

abbrev unprotect1 : Rdbx → Bytes → Rdbx × Bytes × SrtpResult
unprotect1 s buf =
    opened s buf (index_of s buf) (bytes_eq (drop (length buf - 16) buf) (tag_of s.key))
      (mem (index_of s buf) s.done)

opened_keeps :
    (s : Rdbx) (buf : Bytes) (i : ℕ) (genuine again : Bool)
    → let t = (opened s buf i genuine again).0 in
      (t.ssrc ≡ s.ssrc) × (t.key ≡ s.key) × (t.salt ≡ s.salt)
opened_keeps s buf i false again = (refl, refl, refl)
opened_keeps s buf i true true = (refl, refl, refl)
opened_keeps s buf i true false = (refl, refl, refl)

pub unprotect1_keeps :
    (s : Rdbx) (buf : Bytes)
    → let t = (unprotect1 s buf).0 in (t.ssrc ≡ s.ssrc) × (t.key ≡ s.key) × (t.salt ≡ s.salt)
unprotect1_keeps s buf = opened_keeps s buf (index_of s buf) _ _

-- The session with its stream, and before.
abbrev pub added1 : (ssrc window : ℕ) (key : Bytes) → Rdbx
added1 ssrc window key = record {
  ssrc = ssrc;
  key = key;
  salt = [];
  next = 0;
  done = [];
  window = window_of window;
}

abbrev bare1 : Rdbx
bare1 = added1 0 0 []

abbrev pub srtp1 : Srtp
srtp1 = record {
  Session = Rdbx;
  new_session = some bare1;
  add_stream = λ s ssrc window key. guarded window (added1 ssrc window key);
  inplace_rekey = λ s ssrc key salt. some (record s { key = key; salt = salt });
  protect = λ s buf. (record s { next = suc s.next }, buf ++ tag_of s.key, ok);
  unprotect = unprotect1;
  loaded = λ s. (s.key, s.salt);
  stream = λ s. s.ssrc;
  creates = (bare1, refl);
  accepts_window =
      λ s ssrc window key e fits h. (added1 ssrc window key, guarded_accepts window _ fits);
  refuses_window = λ s ssrc window key bad. guarded_refuses window _ bad;
  stream-add_stream = λ s t ssrc window key e. ap (λ (x : Rdbx). x.ssrc) (guarded_is window _ t e);
  inplace_rekey_loads = λ s key salt h h'. (record s { key = key; salt = salt }, refl, refl, refl);
  loaded-protect = λ s buf. refl;
  loaded-unprotect = λ s buf.
      ap₂ (λ (k : Bytes) (n : Bytes). (k, n)) (unprotect1_keeps s buf).1 (unprotect1_keeps s buf).2;
  stream-protect = λ s buf. refl;
  stream-unprotect = λ s buf. (unprotect1_keeps s buf).0;
}

pub header_kept :
    (key packet buf : Bytes)
    → buf ≡ packet ++ tag_of key
    → (length buf ≡ length packet + 16)
      × ((k : ℕ) → k < 12 → 12 ≤ length packet → get_or buf k 0 ≡ get_or packet k 0)
header_kept key packet buf sealed = (
  ap length sealed
      ∙ length-append packet (tag_of key)
      ∙ ap (λ t. length packet + t) (length-tag_of key),
  λ k lt long. ap (λ b. get_or b k 0) sealed ∙ get_or-append packet (tag_of key) k (omega arith),
)

-- What `unprotect1` finds in a sealed packet.
found :
    (r : Rdbx) (index : ℕ) (packet buf : Bytes)
    → buf ≡ packet ++ tag_of r.key
    → IsNumbered packet r.ssrc index
    → IsNear r.next r.window index
    → r.next ≤ 2 ^ 48
    → (index_of r buf ≡ index)
      × (bytes_eq (drop (length buf - 16) buf) (tag_of r.key) ≡ true)
      × (take (length buf - 16) buf ≡ packet)
found r index packet buf sealed numbered near small = (
  ap (recover (record { highest = last_below r.next })) (
        ap₂ from_be16 (same 2 (omega arith) numbered.has_header)
          (same 3 (omega arith) numbered.has_header)
        ∙ numbered.sequence)
      ∙ recovered (record { highest = last_below r.next }) r.next r.window index refl small near,
  ap (λ b. bytes_eq b (tag_of r.key))
        (ap (drop (length buf - 16)) sealed
          ∙ drop-append_exact packet (tag_of r.key) (length buf - 16) (omega (arith, size)))
      ∙ bytes_eq_refl (tag_of r.key),
  ap (take (length buf - 16)) sealed
      ∙ take-append_exact packet (tag_of r.key) (length buf - 16) (omega (arith, size)),
)
  where
    size : length buf ≡ length packet + 16
    size = (header_kept r.key packet buf sealed).0

    same : (k : ℕ) → k < 12 → 12 ≤ length packet → get_or buf k 0 ≡ get_or packet k 0
    same = (header_kept r.key packet buf sealed).1

pub opens1 :
    (r : Rdbx) (index : ℕ) (packet buf : Bytes)
    → buf ≡ packet ++ tag_of r.key
    → IsNumbered packet r.ssrc index
    → IsNear r.next r.window index
    → r.next ≤ 2 ^ 48
    → mem index r.done ≡ false
    → unprotect1 r buf
      ≡ (record r { next = max r.next (suc index); done = index ∷ r.done }, packet, ok)
opens1 r index packet buf sealed numbered near small fresh =
    let (at, genuine, opened_packet) = found r index packet buf sealed numbered near small in
    (λ j. opened r buf (at j) (genuine j) (mem (at j) r.done))
    ∙ (λ j. opened r buf index true (fresh j))
    ∙ (λ j.
        (record r { next = max r.next (suc index); done = index ∷ r.done }, opened_packet j, ok))

pub replays1 :
    (r : Rdbx) (index : ℕ) (packet buf : Bytes)
    → buf ≡ packet ++ tag_of r.key
    → IsNumbered packet r.ssrc index
    → IsNear r.next r.window index
    → r.next ≤ 2 ^ 48
    → mem index r.done ≡ true
    → unprotect1 r buf ≡ (r, buf, err replay_fail)
replays1 r index packet buf sealed numbered near small again =
    let (at, genuine, _) = found r index packet buf sealed numbered near small in
    (λ j. opened r buf (at j) (genuine j) (mem (at j) r.done))
    ∙ (λ j. opened r buf index true (again j))

pub rekeyed1 :
    (s t : Rdbx) (key salt : Bytes)
    → some (record s { key = key; salt = salt }) ≡ some t
    → (t.next ≡ s.next) × (t.window ≡ s.window) × ((i : ℕ) → mem i t.done ≡ mem i s.done)
rekeyed1 s t key salt e =
    let same : record s { key = key; salt = salt } ≡ t = cc in
    (
      ap (λ (x : Rdbx). x.next) (sym same),
      ap (λ (x : Rdbx). x.window) (sym same),
      λ i. ap (λ (x : Rdbx). mem i x.done) (sym same),
    )

abbrev pub link1 : SrtpLink srtp1
link1 = record {
  next = λ s. s.next;
  seen = λ s i. mem i s.done;
  window = λ s. s.window;
  Seals = λ key index packet buf. buf ≡ packet ++ tag_of key.0;
  starts = λ bare s ssrc w key e added.
      let same = guarded_is w (added1 ssrc w key) s added in
      (
        ap (λ (x : Rdbx). x.next) same,
        ap (λ (x : Rdbx). x.window) same,
        λ i. ap (λ (x : Rdbx). mem i x.done) same,
      );
  rekey_keeps = λ s t ssrc key salt e. rekeyed1 s t key salt e;
  seals = λ s packet index e lt numbered.
      (record s { next = suc s.next }, packet ++ tag_of s.key, refl, ap suc e, refl);
  Seals_header = λ key index packet buf sealed. header_kept key.0 packet buf sealed;
  opens = λ r index packet buf sealed numbered near lt small fresh. (
    record r { next = max r.next (suc index); done = index ∷ r.done },
    opens1 r index packet buf sealed numbered near small fresh,
    refl,
    refl,
    λ i. refl,
  );
  replays = λ r index packet buf sealed numbered near lt small again.
      (r, buf, replays1 r index packet buf sealed numbered near small again, refl, refl, λ i. refl);
}
