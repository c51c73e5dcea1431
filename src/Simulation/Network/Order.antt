-- ===== src/Simulation/Network/Order.antt =====
-- The lateness of the arrivals that src/simulation/network.rs's `measure_displacement` walks over.
use safe_cast.Base.{
  ℕ, zero, suc, ◌-◌, ◌≤◌, ◌<◌, ◌≡◌, ◌↔◌, refl, sym, ap, ◌∙◌, arith, Option, none, some, List, [],
  ◌∷◌, ◌++◌, append_assoc, append-nil, All, subst, length, get_elem?, ltb, Bool-cases, inl, inr,
  IsSorted,
}
use safe_cast.Simulation.Network.Config.{Schedule}
use safe_cast.Simulation.Network.{Walk, late_by, newest, visit, walk, count_late}

-- The lateness of each arrival behind the newest before it.
abbrev pub behind : Option ℕ → Schedule → List ℕ
behind seen [] = []
behind seen ((_, idx) ∷ rest) = late_by seen idx ∷ behind (newest seen idx) rest

pub walk-lateness :
    (w : Walk) (s : Schedule) → (walk w s).lateness ≡ w.lateness ++ behind w.max_seen s
unfolding walk visit
walk-lateness w [] = sym (append-nil w.lateness)
walk-lateness w ((_, idx) ∷ rest) =
    walk-lateness (visit w idx) rest
    ∙ append_assoc w.lateness (late_by w.max_seen idx ∷ []) (behind (newest w.max_seen idx) rest)

pub length-behind : (seen : Option ℕ) (s : Schedule) → length (behind seen s) ≡ length s
length-behind seen [] = refl
length-behind seen ((_, idx) ∷ rest) = ap suc (length-behind (newest seen idx) rest)

pub count_late-zero : (ds : List ℕ) → (count_late ds ≡ 0) ↔ All (λ d. d ≤ 0) ds
unfolding count_late
count_late-zero [] = (λ e. tt, λ h. refl)
count_late-zero (zero ∷ ds) =
    (λ e. (omega arith, (count_late-zero ds).0 e), λ h. (count_late-zero ds).1 h.1)
count_late-zero (suc d ∷ ds) = (λ e. ground arith, λ h. absurd (omega (arith, h.0)))

pub count_late_bound : (ds : List ℕ) → count_late ds ≤ length ds
unfolding count_late
count_late_bound [] = omega arith
count_late_bound (zero ∷ ds) = omega (arith, count_late_bound ds)
count_late_bound (suc d ∷ ds) = ground (arith, count_late_bound ds)

-- Nothing newer than what comes.
abbrev pub Reaches : Option ℕ → Schedule → Type 0
Reaches none s = Unit
Reaches (some m) s = All (λ (e : ℕ × ℕ). m ≤ e.1) s

late_by-zero : (m idx : ℕ) → (late_by (some m) idx ≤ 0) ↔ (m ≤ idx)
unfolding late_by
late_by-zero m idx = ground arith

newest_ahead : (m idx : ℕ) → m ≤ idx → newest (some m) idx ≡ some idx
unfolding newest
newest_ahead m idx h = ground arith

All-weaken :
    (m k : ℕ) (s : Schedule)
    → m ≤ k
    → All (λ (e : ℕ × ℕ). k ≤ e.1) s
    → All (λ (e : ℕ × ℕ). m ≤ e.1) s
All-weaken m k [] h all = tt
All-weaken m k (e ∷ s) h all = (omega (arith, all.0), All-weaken m k s h all.1)

pub in_order :
    (seen : Option ℕ) (s : Schedule)
    → All (λ d. d ≤ 0) (behind seen s) ↔ (Reaches seen s × IsSorted (λ (e : ℕ × ℕ). e.1) s)
unfolding newest late_by
in_order none [] = (λ h. (tt, tt), λ h. tt)
in_order (some m) [] = (λ h. (tt, tt), λ h. tt)
in_order none ((t, idx) ∷ s) =
    (λ h. (tt, (in_order (some idx) s).0 h.1), λ h. (omega arith, (in_order (some idx) s).1 h.1))
in_order (some m) ((t, idx) ∷ s) = (
  λ h.
      let le = (late_by-zero m idx).0 h.0 in
      let later = (in_order (some idx) s).0 (rw (newest_ahead m idx le) at (h.1)) in
      ((le, All-weaken m idx s le later.0), later),
  λ h.
      ((late_by-zero m idx).1 h.0.0, rw (newest_ahead m idx h.0.0) ((in_order (some idx) s).1 h.1)),
)

-- Nothing lies further behind than the indices allow.
abbrev pub SeenBelow : ℕ → Option ℕ → Type 0
SeenBelow n none = Unit
SeenBelow n (some m) = m < n

pub behind-bound :
    (n : ℕ) (seen : Option ℕ) (s : Schedule)
    → SeenBelow n seen
    → All (λ (e : ℕ × ℕ). e.1 < n) s
    → All (λ d. d ≤ n - 1) (behind seen s)
unfolding newest late_by
behind-bound n seen [] h all = tt
behind-bound n none ((t, idx) ∷ s) h all = (omega arith, behind-bound n (some idx) s all.0 all.1)
behind-bound n (some m) ((t, idx) ∷ s) h all = elim (Bool-cases (ltb m idx)) [
  | inl e ↦ (ground arith, rw e (behind-bound n (some idx) s all.0 all.1))
  | inr e ↦ (ground arith, rw e (behind-bound n (some m) s h all.1))
]

-- A sorted list read by position.
pub sorted_get :
    (l : List ℕ) (i j a b : ℕ)
    → IsSorted (λ d. d) l
    → i ≤ j
    → get_elem? l i ≡ some a
    → get_elem? l j ≡ some b
    → a ≤ b
sorted_get [] i j a b s le ha hb = absurd (cc)
sorted_get (x ∷ l) zero zero a b s le ha hb = let e : a ≡ b = cc in omega arith
sorted_get (x ∷ l) zero (suc j) a b s le ha hb =
    let e : a ≡ x = cc in let above = All-get l j b x s.0 hb in omega arith
  where
    All-get : (l : List ℕ) (j b x : ℕ) → All (λ y. x ≤ y) l → get_elem? l j ≡ some b → x ≤ b
    All-get [] j b x h hb = absurd (cc)
    All-get (y ∷ l) zero b x h hb = let e : b ≡ y = cc in omega (arith, h.0)
    All-get (y ∷ l) (suc j) b x h hb = All-get l j b x h.1 hb
sorted_get (x ∷ l) (suc i) zero a b s le ha hb = absurd (omega arith)
sorted_get (x ∷ l) (suc i) (suc j) a b s le ha hb = sorted_get l i j a b s.1 (omega arith) ha hb

pub get-All : (P : ℕ → Type 0) (l : List ℕ) (i a : ℕ) → All P l → get_elem? l i ≡ some a → P a
get-All P [] i a h e = absurd (cc)
get-All P (x ∷ l) zero a h e = subst P (cc) h.0
get-All P (x ∷ l) (suc i) a h e = get-All P l i a h.1 e

-- The last of a sorted list bounds it.
pub All-last :
    (l : List ℕ) (b : ℕ)
    → IsSorted (λ d. d) l
    → get_elem? l (length l - 1) ≡ some b
    → All (λ d. d ≤ b) l
All-last [] b s e = tt
All-last (x ∷ []) b s e = let same : x ≡ b = cc in (omega arith, tt)
All-last (x ∷ y ∷ l) b s e =
    let one : suc (suc (length l)) - 1 ≡ suc (suc (length l) - 1) = omega arith in
    let ih = All-last (y ∷ l) b s.1 (rw one at e) in (omega (arith, s.0.0, ih.0), ih)
