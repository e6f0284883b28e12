-- ===== src/Log/Again.antt =====
-- Recovery may itself be cut short, at any of its writes: the next one ends as the first would have.
use laboratorio_ramiro.Prelude.{
  mem, Bool-cases, List, [], ap, arith, if◌then◌else◌, inl, inr, ltb, refl, ℕ, ◌+◌, ◌<◌, ◌∙◌, ◌≡◌,
  ◌≤◌,
}
use laboratorio_ramiro.Log.Disk.{Block, Machine, bread, reboot, view, view-bread}
use laboratorio_ramiro.Log.{write_head, install_trans, recover_from_log}
use laboratorio_ramiro.Log.Loops.{IsHome}
use laboratorio_ramiro.Log.Install.{IsInstalled, install_trans-IsInstalled}
use laboratorio_ramiro.Log.Head.{header, disk-write_head, listed, listed-header_nil}
use laboratorio_ramiro.Log.Crash.{IsCommitted, Recovers, clean-Recovers, mem-home, recover_eq}

module _ (start size : ℕ) (bs : List ℕ) (v d : ℕ → Block) (c : IsCommitted start size bs v d)
    (j : ℕ) where
  booted : Machine
  booted = (bread (reboot d j) start).1

  copied_back : Machine
  unfolding booted
  copied_back = install_trans start 0 bs booted

  cut : Machine
  unfolding copied_back
  cut = write_head start [] copied_back

  recover-cut : recover_from_log start (reboot d j) ≡ cut
  unfolding cut reboot
  recover-cut =
      recover_eq start size (reboot d j)
      ∙ ap (λ l. write_head start [] (install_trans start 0 l booted)) c.lists

  ok : IsInstalled start size 0 bs booted copied_back
  unfolding copied_back
  ok = install_trans-IsInstalled start size 0 bs booted c.homes (omega (arith, c.fits))

  booted-disk : (x : ℕ) → booted.disk x ≡ d x
  unfolding booted bread reboot
  booted-disk x = refl

  booted-view : (x : ℕ) → view booted x ≡ d x
  unfolding booted reboot
  booted-view x = view-bread (reboot d j) start x

  in_place :
      0 < copied_back.fuse
      → (x : ℕ) → IsHome start size x
      → copied_back.disk x ≡ (if mem x bs then v x else d x)
  in_place on x home = elim (Bool-cases (mem x bs)) [
    | inl here ↦
        rw here (ok.blocks v (omega (arith, ok.fuse)) (λ i l. booted-view _ ∙ c.held i l) x here)
    | inr out ↦ rw out (ok.disk_out x out ∙ booted-disk x)
  ]

  log_kept : (y : ℕ) → start ≤ y → y < start + size → copied_back.disk y ≡ d y
  log_kept y lo hi = ok.disk_out y (mem-home start size bs y c.homes lo hi) ∙ booted-disk y

  cut-Recovers :
      (w : ℕ → Block)
      → ((x : ℕ) → IsHome start size x → (if mem x bs then v x else d x) ≡ w x)
      → Recovers start size w cut.disk
  unfolding cut
  cut-Recovers w result = elim (Bool-cases (ltb 0 copied_back.fuse)) [
    | inl on ↦
        let cleared : cut.disk start ≡ header [] (view copied_back start) =
          disk-write_head start [] copied_back start ∙ ground arith in
        clean-Recovers start size w cut.disk (omega (arith, c.fits))
          (ap listed cleared ∙ listed-header_nil (view copied_back start))
          (λ x home.
            let same : cut.disk x ≡ copied_back.disk x =
              disk-write_head start [] copied_back x ∙ ground (arith, c.fits) in
            same ∙ in_place (ground arith) x home ∙ result x home)
    | inr off ↦
        let same = λ (y : ℕ).
          let step : cut.disk y ≡ copied_back.disk y =
            disk-write_head start [] copied_back y ∙ ground arith in
          step in
        record {
          blocks = bs;
          slots = v;
          committed = record {
            homes = c.homes;
            fits = c.fits;
            small = c.small;
            lists =
                ap listed (same start ∙ log_kept start (omega arith) (omega (arith, c.fits)))
                ∙ c.lists;
            held = λ i l. same _ ∙ log_kept _ (omega arith) (omega (arith, c.fits)) ∙ c.held i l;
          };
          result = λ x home. elim (Bool-cases (mem x bs)) [
            | inl here ↦ ground (arith, result x home)
            | inr out ↦
                rw out (same x ∙ ok.disk_out x out ∙ booted-disk x ∙ ground (arith, result x home))
          ];
        }
  ]

pub recover-Recovers :
    (start size : ℕ) {w d : ℕ → Block} (j : ℕ)
    → Recovers start size w d
    → Recovers start size w (recover_from_log start (reboot d j)).disk
recover-Recovers start size {w} {d} j r =
    rw (recover-cut start size r.blocks r.slots d r.committed j)
      (cut-Recovers start size r.blocks r.slots d r.committed j w r.result)
