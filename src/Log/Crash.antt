-- ===== src/Log/Crash.antt =====
-- A commit that loses power after any number of writes, and recovery from what it left, which may lose power too.
use project4final.Log.Header.{header-written, write_head-dead, disk-write_head}
use project4final.Log.Commit.{write_head, decode, install_trans}
use project4final.Log.Phases.{Off, Logged, Installed, install_trans_lem, In-or_Fresh, Logged-frame}
use project4final.Log.Device.{Block, Device}
use project4final.Prelude.{
  ℕ, [], ◌∷◌, ◌+◌, refl, List, Bool, In, Fresh, ◌≢◌, All, ◌≡◌, if◌then◌else◌, false, true, length,
  arith, All-mono, ◌<◌, ◌==◌, ne→==, ◌≤◌, ap, inl, ◌||◌, sym, inr, ◌∙◌, dec_lt, subst,
}

unfoldable pub contains : ℕ → List ℕ → Bool
contains x [] = false
contains x (y ∷ ys) = x == y || contains x ys

-- The home blocks once the blocks of the header have been installed.
unfoldable pub after_commit : List ℕ → (mem disk : ℕ → Block) → ℕ → Block
after_commit lh mem disk x = if contains x lh then mem x else disk x

pub contains-In : (x : ℕ) (xs : List ℕ) → In x xs → contains x xs ≡ true
unfolding contains
contains-In x [] i = absurd i
contains-In x (y ∷ ys) (inl e) = ground arith
contains-In x (y ∷ ys) (inr i) = rw (contains-In x ys i) (or-true (x == y))
  where
    or-true : (b : Bool) → (b || true) ≡ true
    or-true true = refl
    or-true false = refl

pub contains-Fresh : (x : ℕ) (xs : List ℕ) → Fresh x xs → contains x xs ≡ false
unfolding contains
contains-Fresh x [] f = refl
contains-Fresh x (y ∷ ys) f = rw (ne→== x y (λ e. f.0 (sym e))) (contains-Fresh x ys f.1)

module _ (start n : ℕ) where
  -- The header on the disk is clear, and the home blocks are `home`.
  pub record IsClean (disk home : ℕ → Block) : Type 0 where
    pub clear : decode (disk start) ≡ []
    pub homes : (x : ℕ) → Off start n x → disk x ≡ home x

  -- The header on the disk names `lh`, the log holds those blocks of `home`, and the others are in place.
  pub record IsPending (disk home : ℕ → Block) (lh : List ℕ) : Type 0 where
    pub header : decode (disk start) ≡ lh
    pub fits : length lh ≤ n
    pub off : All (Off start n) lh
    pub logged : Logged home disk start 0 lh
    pub homes : (x : ℕ) → Off start n x → Fresh x lh → disk x ≡ home x

  -- Recovery will give `home`.
  pub data Recovers (disk home : ℕ → Block) : Type 0 where
    clean : IsClean disk home → Recovers disk home
    pending : (lh : List ℕ) → IsPending disk home lh → Recovers disk home

  pub header-Off : (x : ℕ) → Off start n x → x ≢ start
  header-Off x o e = omega arith

  Off-start : (lh : List ℕ) → All (Off start n) lh → Fresh start lh
  Off-start lh a = All-mono (λ x o. header-Off x o) lh a

  -- The last step of commit and of recovery: with power it clears the header, and without it nothing happens.
  clear_header :
      (s : Device) (home : ℕ → Block)
      → ((x : ℕ) → Off start n x → s.disk x ≡ home x)
      → 0 < s.power
      → IsClean (write_head start [] s).disk home
  clear_header s home h p = record {
    clear = header-written start [] s p;
    homes = λ x o. disk-write_head start [] s x (header-Off x o) ∙ h x o;
  }

  -- Installing what is pending, and clearing the header: whenever the power fails, recovery still gives `home`.
  pub finish :
      (s : Device) (home : ℕ → Block) (lh : List ℕ)
      → IsPending s.disk home lh
      → Logged home s.mem start 0 lh
      → let u = write_head start [] (install_trans start 0 lh s) in
        Recovers u.disk home × (length lh < s.power → IsClean u.disk home)
  finish s home lh p l = elim (dec_lt (length lh) s.power) [
    | yes h ↦ (clean (done h), λ _. done h)
    | no h ↦ (
      pending lh (
          subst (λ d. IsPending d home lh)
            (sym (write_head-dead start [] t (omega (arith, w.power_left)))) kept),
      λ q. absurd (h q),
    )
  ]
    where
      t : Device
      t = install_trans start 0 lh s

      w : Installed start n home s t lh
      w = install_trans_lem start n home 0 lh s (omega (arith, p.fits)) p.off l

      homes_new : length lh < s.power → (x : ℕ) → Off start n x → t.disk x ≡ home x
      homes_new h x o = elim (In-or_Fresh x lh) [
        | inl i ↦ w.disk_new (omega arith) x i
        | inr f ↦ w.disk_same x f ∙ p.homes x o f
      ]

      done : length lh < s.power → IsClean (write_head start [] t).disk home
      done h = clear_header t home (homes_new h) (omega (arith, w.power_left))

      in_log : (x : ℕ) → start < x → x ≤ start + length lh → Fresh x lh
      in_log x a b = All-mono (λ y o. λ e. omega (arith, p.fits)) lh p.off

      kept : IsPending t.disk home lh
      kept = record {
        header = ap decode (w.disk_same start (Off-start lh p.off)) ∙ p.header;
        fits = p.fits;
        off = p.off;
        logged =
            Logged-frame home s.disk t.disk start 0 lh
              (λ x a b. w.disk_same x (in_log x (omega arith) (omega arith))) p.logged;
        homes = λ x o f. w.disk_same x f ∙ p.homes x o f;
      }
