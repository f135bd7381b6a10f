-- ===== src/Log/Recovery.antt =====
-- The two theorems on crashes: commit is atomic, and recovery finishes it however often it is interrupted.
use project4final.Log.Header.{
  power-write_head, header-written, mem-write_head, write_head-dead, disk-write_head,
}
use project4final.Log.Commit.{
  decode, write_log, write_head, install_trans, commit, recover_from_log, read_head,
}
use project4final.Log.Phases.{
  Logged, Off, Wrote, Logged-frame, write_log_lem, Installed, install_trans_lem,
}
use project4final.Log.Crash.{
  after_commit, IsClean, IsPending, contains-In, contains-Fresh, header-Off, Recovers, finish,
  clean, pending,
}
use project4final.Log.Device.{Block, Device, reboot}
use project4final.Prelude.{
  suc, ℕ, [], ◌∷◌, ◌+◌, refl, List, In, Fresh, length, ◌≡◌, ◌≤◌, All, ◌∙◌, sym, inl, arith, ◌<◌,
  inr, All-mono, ap,
}

Logged-retarget :
    (m m' f : ℕ → Block) (start tail : ℕ) (bs : List ℕ)
    → ((b : ℕ) → In b bs → m' b ≡ m b)
    → Logged m f start tail bs
    → Logged m' f start tail bs
Logged-retarget m m' f start tail [] h l = tt
Logged-retarget m m' f start tail (b ∷ bs) h l = (
  l.0 ∙ sym (h b (inl refl)),
  Logged-retarget m m' f start (suc tail) bs (λ x i. h x (inr i)) l.1,
)

after_commit-In :
    (lh : List ℕ) (mem disk : ℕ → Block) (x : ℕ) → In x lh → after_commit lh mem disk x ≡ mem x
unfolding after_commit
after_commit-In lh mem disk x i = rw (contains-In x lh i)

after_commit-Fresh :
    (lh : List ℕ) (mem disk : ℕ → Block) (x : ℕ) → Fresh x lh → after_commit lh mem disk x ≡ disk x
unfolding after_commit
after_commit-Fresh lh mem disk x f = rw (contains-Fresh x lh f)

module _ (start n : ℕ) where
  module _ (s : Device) (lh : List ℕ) (small : length lh ≤ n) (off : All (Off start n) lh)
      (clear : decode (s.disk start) ≡ []) where
    abbrev t : Device
    t = write_log start 0 lh s

    abbrev home : ℕ → Block
    home = after_commit lh s.mem s.disk

    wrote : Wrote start n s.mem s t 0 lh
    wrote = write_log_lem start n s.mem 0 lh s (omega arith) (All-mono (λ b o. (o, refl)) lh off)

    abbrev u : Device
    u = write_head start lh t

    others : (x : ℕ) → Off start n x → t.disk x ≡ s.disk x
    others x o = wrote.disk_same x (omega arith)

    too_early :
        s.power ≤ length lh
        → IsClean start n (write_head start [] (install_trans start 0 lh u)).disk s.disk
    too_early h =
        rw
          (write_head-dead start [] (install_trans start 0 lh u)
              (omega (arith, w.power_left, no_power))
            ∙ w.dead no_power
            ∙ same)
          record {
            clear = ap decode (wrote.disk_same start (inl (omega arith))) ∙ clear;
            homes = others;
          }
      where
        empty : t.power ≡ 0
        empty = omega (arith, wrote.power_left)

        no_power : u.power ≡ 0
        no_power = omega (arith, power-write_head start lh t, empty)

        same : u.disk ≡ t.disk
        same = write_head-dead start lh t empty

        mem_logged : Logged s.mem u.mem start 0 lh
        mem_logged =
            Logged-frame s.mem t.mem u.mem start 0 lh
              (λ x a b. mem-write_head start lh t x (λ e. omega arith)) wrote.in_mem

        w : Installed start n s.mem u (install_trans start 0 lh u) lh
        w = install_trans_lem start n s.mem 0 lh u (omega arith) off mem_logged

    IsPending-now : length lh < s.power → IsPending start n u.disk home lh
    IsPending-now h = record {
      header = header-written start lh t (omega (arith, wrote.power_left));
      fits = small;
      off = off;
      logged = Logged-retarget s.mem home u.disk start 0 lh (after_commit-In lh s.mem s.disk) (
          Logged-frame s.mem t.disk u.disk start 0 lh
            (λ x a b. disk-write_head start lh t x (λ e. omega arith))
            (wrote.on_disk (omega arith)));
      homes = λ x o f.
          (disk-write_head start lh t x (header-Off start n x o))
          ∙ others x o
          ∙ sym (after_commit-Fresh lh s.mem s.disk x f);
    }

    mem_pending : Logged home u.mem start 0 lh
    mem_pending = Logged-retarget s.mem home u.mem start 0 lh (after_commit-In lh s.mem s.disk) (
        Logged-frame s.mem t.mem u.mem start 0 lh
          (λ x a b. mem-write_head start lh t x (λ e. omega arith)) wrote.in_mem)

    -- Commit with any number of writes before the power fails.
    cases :
        let d = (write_head start [] (install_trans start 0 lh u)).disk in
        (s.power ≤ length lh → IsClean start n d s.disk)
        × (length lh < s.power → Recovers start n d home)
        × (length lh + length lh + 1 < s.power → IsClean start n d home)
    cases = (
      too_early,
      (λ h. (finish start n u home lh (IsPending-now h) mem_pending).0),
      (λ h.
          (finish start n u home lh (IsPending-now (omega arith)) mem_pending).1
            (omega (arith, power-write_head start lh t, wrote.power_left))),
    )

  -- Commit of a header of at most `n` blocks outside the log, from a disk whose header is clear, with power for any
  -- number of writes. If the power fails before the header is written, the home blocks are as they were and the
  -- header is clear; if it fails later, or not, recovery gives the committed blocks; and with power to the end they
  -- are in place with the header clear.
  pub commit_atomic :
      (s : Device) (lh : List ℕ)
      → length lh ≤ n
      → All (Off start n) lh
      → decode (s.disk start) ≡ []
      → let d = (commit start lh s).disk in
        let new = after_commit lh s.mem s.disk in
        (s.power ≤ length lh → IsClean start n d s.disk)
        × (length lh < s.power → Recovers start n d new)
        × (length lh + length lh + 1 < s.power → IsClean start n d new)
  unfolding commit
  commit_atomic s [] small off clear =
      let same : IsClean start n s.disk (after_commit [] s.mem s.disk) = record {
        clear = clear;
        homes = λ x o. sym (after_commit-Fresh [] s.mem s.disk x tt);
      } in
      ((λ h. record { clear = clear; homes = λ x o. refl }), (λ h. clean same), (λ h. same))
  commit_atomic s (b ∷ bs) small off clear = cases s (b ∷ bs) small off clear

  -- recover_from_log with power for `q` writes.
  recover_once :
      (disk home : ℕ → Block) (q : ℕ)
      → Recovers start n disk home
      → let d = (recover_from_log start (reboot disk q)).disk in
        Recovers start n d home × (n < q → IsClean start n d home)
  unfolding recover_from_log read_head reboot
  recover_once disk home q (pending lh p) =
      let f = finish start n (record { disk = disk; mem = disk; power = q }) home lh p p.logged in
      rw p.header (f.0, λ h. f.1 (omega (arith, p.fits)))
  recover_once disk home q (clean c) =
      let r : Device = record { disk = disk; mem = disk; power = q } in
      let p : IsPending start n disk home [] = record {
        header = c.clear;
        fits = omega arith;
        off = tt;
        logged = tt;
        homes = λ x o f. c.homes x o;
      } in
      let f = finish start n r home [] p tt in rw c.clear (f.0, λ h. f.1 (omega arith))

  -- The disk after recoveries that were interrupted, each after so many writes.
  unfoldable pub recoveries : List ℕ → (ℕ → Block) → ℕ → Block
  recoveries [] disk = disk
  recoveries (q ∷ qs) disk = recoveries qs (recover_from_log start (reboot disk q)).disk

  -- From a disk that recovery will bring to `home`, however often and wherever recovery itself is interrupted, a
  -- recovery with power for more than `n` writes ends with the home blocks in place and the header clear.
  pub recovery_completes :
      (qs : List ℕ) (disk home : ℕ → Block) (q : ℕ)
      → Recovers start n disk home
      → n < q
      → IsClean start n (recover_from_log start (reboot (recoveries qs disk) q)).disk home
  unfolding recoveries
  recovery_completes [] disk home q r h = (recover_once disk home q r).1 h
  recovery_completes (p ∷ qs) disk home q r h =
      recovery_completes qs (recover_from_log start (reboot disk p)).disk home q
        (recover_once disk home p r).0 h
