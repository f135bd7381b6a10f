-- ===== src/Log/Phases.antt =====
-- What each phase of a commit does to the disk, with any number of writes left.
use project4final.Log.Commit.{write_log, install_trans}
use project4final.Log.Device.{
  Block, Device, bwrite, mem-bwrite_ne, mem-bwrite_self, disk-bwrite_ne, disk-bwrite_self,
  power-bwrite, disk-bwrite_dead,
}
use project4final.Prelude.{
  suc, ℕ, [], ◌∷◌, ◌+◌, refl, ◌<◌, List, ◌⊎◌, ◌≡◌, ◌≤◌, In, length, Fresh, arith, inr, ◌-◌, All,
  ◌∙◌, ℕ_discrete, ◌≢◌, inl, All-mono, sym, ap,
}

-- The block `b` is not one of the first `n + 1` blocks of the log, of which the first is the header.
abbrev pub Off : ℕ → ℕ → ℕ → Type 0
Off start n b = (b < start) ⊎ (start + n < b)

-- From position `tail` on, the log blocks of `f` hold what `m` has for the blocks of the header.
abbrev pub Logged : (ℕ → Block) → (ℕ → Block) → ℕ → ℕ → List ℕ → Type 0
Logged m f start tail [] = Unit
Logged m f start tail (b ∷ bs) = (f (start + tail + 1) ≡ m b) × Logged m f start (suc tail) bs

pub Logged-frame :
    (m f g : ℕ → Block) (start tail : ℕ) (bs : List ℕ)
    → ((x : ℕ) → start + tail < x → x ≤ start + tail + length bs → g x ≡ f x)
    → Logged m f start tail bs
    → Logged m g start tail bs
Logged-frame m f g start tail [] h l = tt
Logged-frame m f g start tail (b ∷ bs) h l = (
  h (start + tail + 1) (omega arith) (omega arith) ∙ l.0,
  Logged-frame m f g start (suc tail) bs (λ x p q. h x (omega arith) (omega arith)) l.1,
)

pub In-or_Fresh : (x : ℕ) (xs : List ℕ) → In x xs ⊎ Fresh x xs
In-or_Fresh x [] = inr tt
In-or_Fresh x (y ∷ ys) = elim (ℕ_discrete x y) [
  | yes e ↦ inl (inl e)
  | no n ↦ elim (In-or_Fresh x ys) [ inl i ↦ inl (inr i) | inr f ↦ inr ((λ e. n (sym e)), f) ]
]

not_both : (x : ℕ) (xs : List ℕ) → Fresh x xs → In x xs → ⊥
not_both x [] f i = absurd i
not_both x (y ∷ ys) f (inl e) = f.0 (sym e)
not_both x (y ∷ ys) f (inr i) = not_both x ys f.1 i

In-head : (x b : ℕ) (bs : List ℕ) → In x (b ∷ bs) → Fresh x bs → x ≡ b
In-head x b bs (inl e) f = e
In-head x b bs (inr i) f = absurd (not_both x bs f i)

module _ (start n : ℕ) (m : ℕ → Block) where
  -- What write_log leaves: only log blocks change, and with power enough they all reach the disk.
  pub record Wrote (s u : Device) (tail : ℕ) (bs : List ℕ) : Type 0 where
    pub in_mem : Logged m u.mem start tail bs
    pub mem_same : (x : ℕ) → (x ≤ start + tail) ⊎ (start + tail + length bs < x) → u.mem x ≡ s.mem x
    pub disk_same :
        (x : ℕ) → (x ≤ start + tail) ⊎ (start + tail + length bs < x) → u.disk x ≡ s.disk x
    pub on_disk : length bs ≤ s.power → Logged m u.disk start tail bs
    pub power_left : u.power ≡ s.power - length bs

  pub write_log_lem :
      (tail : ℕ) (bs : List ℕ) (s : Device)
      → tail + length bs ≤ n
      → All (λ b. Off start n b × (s.mem b ≡ m b)) bs
      → Wrote s (write_log start tail bs s) tail bs
  unfolding write_log
  write_log_lem tail [] s h a = record {
    in_mem = tt;
    mem_same = λ x o. refl;
    disk_same = λ x o. refl;
    on_disk = λ p. tt;
    power_left = omega arith;
  }
  write_log_lem tail (b ∷ bs) s h a =
      let at = start + tail + 1 in
      let s' = bwrite s at (s.mem b) in
      let w =
        write_log_lem (suc tail) bs s' (omega arith)
          (All-mono (λ x q. (q.0, mem-bwrite_ne s at (s.mem b) x (off_log x q.0) ∙ q.1)) bs a.1) in
      record {
        in_mem =
            (w.mem_same at (inl (omega arith)) ∙ mem-bwrite_self s at (s.mem b) ∙ a.0.1, w.in_mem);
        mem_same = λ x o. w.mem_same x (outside x o) ∙ mem-bwrite_ne s at (s.mem b) x (apart x o);
        disk_same =
            λ x o. w.disk_same x (outside x o) ∙ disk-bwrite_ne s at (s.mem b) x (apart x o);
        on_disk = λ p. (
          w.disk_same at (inl (omega arith))
              ∙ disk-bwrite_self s at (s.mem b) (omega arith)
              ∙ a.0.1,
          w.on_disk (omega (arith, power-bwrite s at (s.mem b))),
        );
        power_left = omega (arith, w.power_left, power-bwrite s at (s.mem b));
      }
    where
      off_log : (x : ℕ) → Off start n x → x ≢ start + tail + 1
      off_log x o e = omega arith

      outside :
          (x : ℕ)
          → (x ≤ start + tail) ⊎ (start + tail + suc (length bs) < x)
          → (x ≤ start + suc tail) ⊎ (start + suc tail + length bs < x)
      outside x o = omega arith

      apart :
          (x : ℕ) → (x ≤ start + tail) ⊎ (start + tail + suc (length bs) < x) → x ≢ start + tail + 1
      apart x o e = omega arith

  -- What install_trans leaves: only the home blocks of the header change, and with power enough they hold what
  -- was logged.
  pub record Installed (s u : Device) (bs : List ℕ) : Type 0 where
    pub disk_same : (x : ℕ) → Fresh x bs → u.disk x ≡ s.disk x
    pub disk_new : length bs ≤ s.power → (x : ℕ) → In x bs → u.disk x ≡ m x
    pub mem_same : (x : ℕ) → Fresh x bs → u.mem x ≡ s.mem x
    pub dead : s.power ≡ 0 → u.disk ≡ s.disk
    pub power_left : u.power ≡ s.power - length bs

  pub install_trans_lem :
      (tail : ℕ) (bs : List ℕ) (s : Device)
      → tail + length bs ≤ n
      → All (Off start n) bs
      → Logged m s.mem start tail bs
      → Installed s (install_trans start tail bs s) bs
  unfolding install_trans
  install_trans_lem tail [] s h a l = record {
    disk_same = λ x f. refl;
    disk_new = λ p x i. absurd i;
    mem_same = λ x f. refl;
    dead = λ z. refl;
    power_left = omega arith;
  }
  install_trans_lem tail (b ∷ bs) s h a l =
      let d = s.mem (start + tail + 1) in
      let s' = bwrite s b d in
      let w = install_trans_lem (suc tail) bs s' (omega arith) a.1 (
        Logged-frame m s.mem s'.mem start (suc tail) bs
          (λ x p q. mem-bwrite_ne s b d x (λ e. omega (arith, a.0))) l.1) in
      record {
        disk_same = λ x f. w.disk_same x f.1 ∙ disk-bwrite_ne s b d x (λ e. f.0 (sym e));
        disk_new = λ p x i. elim (In-or_Fresh x bs) [
          | inl j ↦ w.disk_new (omega (arith, power-bwrite s b d)) x j
          | inr f ↦
              let e : x ≡ b = In-head x b bs i f in
              w.disk_same x f
              ∙ ap s'.disk e
              ∙ disk-bwrite_self s b d (omega arith)
              ∙ l.0
              ∙ ap m (sym e)
        ];
        dead = λ z. w.dead (omega (arith, power-bwrite s b d)) ∙ disk-bwrite_dead s b d z;
        mem_same = λ x f. w.mem_same x f.1 ∙ mem-bwrite_ne s b d x (λ e. f.0 (sym e));
        power_left = omega (arith, w.power_left, power-bwrite s b d);
      }
