-- ===== src/Kernel/FileTable/Calls.antt =====
-- The system calls of xv6/sysfile.c on descriptors, and the loops of fork and exit in xv6/proc.c,
-- from a state whose counts are right.
use laboratorio_lukitas.Common.{
  ℕ, ◌+◌, ◌≤◌, ◌<◌, ◌≡◌, refl, sym, ◌∙◌, ap, subst, ◌≢◌, inl, inr, Option, none, some, Bool, arith,
  eq_cases, lt_cases, Option-cases, update, update_self, update_ne,
}
use laboratorio_lukitas.Kernel.Proc.{nproc}
use laboratorio_lukitas.Kernel.FileTable.{
  Open, Files, Row, Call, Release, fails, returns, nfile, nofile, filealloc, find_free, fdalloc,
  find_fd, more, fewer, argfd, sys_dup, sys_close, open_file, open_with, opened, set_row,
}
use laboratorio_lukitas.Kernel.FileTable.Counted.{
  Counted, refers, refs, Counted-positive, Counted-step,
}
use laboratorio_lukitas.Kernel.FileTable.Search.{
  FreeEntry, no_entry, entry, find_free_lem, FreeFd, no_fd, fd_at, find_fd_lem, filedup_positive,
  fileclose_positive, ref-more, ref-fewer,
}

-- A call that does not panic and leaves the counts right.
pub data Works : Call → Type 0 where
  failed : {r : Release} {s : Open} → Counted s → Works (fails r s)
  returned : {n : ℕ} {r : Release} {s : Open} → Counted s → Works (returns n r s)

some-injective : {a b : ℕ} → some a ≡ some b → a ≡ b
some-injective {a} e = ap (λ o. elim o [ some x ↦ x | none ↦ a ]) e

-- A free descriptor is made to refer to a file, whose count goes up.
pub dup-Counted :
    (s : Open) (p fd f : ℕ)
    → Counted s
    → p < nproc
    → fd < nofile
    → s.ofile p fd ≡ none
    → f < nfile
    → Counted (set_row s p (update (s.ofile p) fd (some f)) (more s.files f))
dup-Counted s p fd f c lp lfd free lf =
    Counted-step s p fd (some f) (more s.files f) c lp lfd
      (λ g e. subst (λ h. h < nfile) (some-injective e) lf)
      (λ g. omega (arith, ref-more s.files f g, ap (refers g) free))

-- A descriptor is cleared, and the count of its file goes down.
pub close-Counted :
    (s : Open) (p fd f : ℕ)
    → Counted s
    → p < nproc
    → fd < nofile
    → s.ofile p fd ≡ some f
    → Counted (set_row s p (update (s.ofile p) fd none) (fewer s.files f))
close-Counted s p fd f c lp lfd e =
    Counted-step s p fd none (fewer s.files f) c lp lfd (λ g z. cc z)
      (λ g.
        omega
          (arith, ref-fewer s.files f g (Counted-positive s p fd f c lp lfd e), ap (refers g) e))

argfd-some : (row : Row) (fd f : ℕ) → argfd row fd ≡ some f → (fd < nofile) × (row fd ≡ some f)
unfolding argfd
argfd-some row fd f e = elim (lt_cases fd nofile) [
  | inl (l, _) ↦ (l, ground arith)
  | inr (l, _) ↦ absurd (ground arith)
]

-- From a state whose counts are right `sys_dup` does not panic, and leaves them right.
pub sys_dup-Works : (s : Open) (p fd : ℕ) → Counted s → p < nproc → Works (sys_dup s p fd)
unfolding sys_dup fdalloc
sys_dup-Works s p fd c lp = elim (Option-cases (argfd (s.ofile p) fd)) [
  | inl e ↦ rw (e, sys_dup) (failed c)
  | inr (f, e) ↦
      placed f e (find_fd nofile 0 (s.ofile p)) refl (find_fd_lem nofile 0 nofile (s.ofile p) refl)
]
  where
    placed :
        (f : ℕ)
        → argfd (s.ofile p) fd ≡ some f
        → (o : Option ℕ) → find_fd nofile 0 (s.ofile p) ≡ o
        → FreeFd (s.ofile p) 0 nofile o
        → Works (sys_dup s p fd)
    placed f e _ found (no_fd _) = rw (e, found, sys_dup, fdalloc) (failed c)
    placed f e _ found (fd_at n lo up free _) =
        let (lfd, at) = argfd-some (s.ofile p) fd f e in
        rw (e, found, sys_dup, fdalloc)
          (rw (filedup_positive s.files f (Counted-positive s p fd f c lp lfd at))
            (returned (dup-Counted s p n f c lp up free (c.in_table p fd f lp lfd at))))

-- From a state whose counts are right `sys_close` does not panic, and leaves them right.
pub sys_close-Works : (s : Open) (p fd : ℕ) → Counted s → p < nproc → Works (sys_close s p fd)
unfolding sys_close
sys_close-Works s p fd c lp = elim (Option-cases (argfd (s.ofile p) fd)) [
  | inl e ↦ rw (e, sys_close) (failed c)
  | inr (f, e) ↦
      let (lfd, at) = argfd-some (s.ofile p) fd f e in
      rw (e, sys_close)
        (rw (fileclose_positive s.files f (Counted-positive s p fd f c lp lfd at))
          (returned (close-Counted s p fd f c lp lfd at)))
]

-- The counts of a table in which every count is as before.
same_refs-Counted :
    (s : Open) (files : Files)
    → Counted s
    → ((f : ℕ) → (files f).ref ≡ (s.files f).ref)
    → Counted (record s { files = files })
unfolding refs
same_refs-Counted s files c same = record {
  counts = λ f. same f ∙ c.counts f;
  in_table = c.in_table;
}

allocated : Files → ℕ → Files
allocated files f = update files f (record (files f) { ref = 1 })

ref-allocated : (files : Files) (f : ℕ) → (allocated files f f).ref ≡ 1
unfolding allocated
ref-allocated files f = ap (λ x. x.ref) (update_self files f (record (files f) { ref = 1 }))

ref-allocated_ne : (files : Files) (f g : ℕ) → f ≢ g → (allocated files f g).ref ≡ (files g).ref
unfolding allocated
ref-allocated_ne files f g ne =
    ap (λ x. x.ref) (update_ne files f (record (files f) { ref = 1 }) g ne)

filealloc-some :
    (files : Files) (f : ℕ)
    → find_free nfile 0 files ≡ some f
    → filealloc files ≡ (some f, allocated files f)
unfolding filealloc allocated
filealloc-some files f e = rw (e, filealloc) refl

filealloc-none : (files : Files) → find_free nfile 0 files ≡ none → filealloc files ≡ (none, files)
unfolding filealloc
filealloc-none files e = rw (e, filealloc) refl

-- From a state whose counts are right `sys_open` does not panic, and leaves them right.
pub open_file-Works :
    (s : Open) (p ip : ℕ) (wronly rdwr : Bool)
    → Counted s
    → p < nproc
    → Works (open_file s p ip wronly rdwr)
unfolding open_file fdalloc open_with
open_file-Works s p ip wronly rdwr c lp =
    got (find_free nfile 0 s.files) refl (find_free_lem nfile 0 nfile s.files refl)
  where
    new : ℕ → Files
    new f = update (allocated s.files f) f (opened (allocated s.files f f) ip wronly rdwr)

    ref-new : (f g : ℕ) → (s.files f).ref ≡ 0 → (new f g).ref ≡ (s.files g).ref + refers g (some f)
    ref-new f g z = elim (eq_cases f g) [
      | inl (e, t) ↦ rw t (omega (arith, ref-allocated s.files f, ap (λ h. (s.files h).ref) e))
      | inr (ne, t) ↦ rw t (omega (arith, ref-allocated_ne s.files f g ne))
    ]

    ref-back :
        (f g : ℕ) → (s.files f).ref ≡ 0 → (fewer (allocated s.files f) f g).ref ≡ (s.files g).ref
    ref-back f g z = elim (eq_cases f g) [
      | inl (e, t) ↦ rw t (omega (arith, ref-allocated s.files f, ap (λ h. (s.files h).ref) e))
      | inr (ne, t) ↦ rw t (ref-allocated_ne s.files f g ne)
    ]

    placed :
        (f : ℕ)
        → find_free nfile 0 s.files ≡ some f
        → f < nfile
        → (s.files f).ref ≡ 0
        → (o : Option ℕ) → find_fd nofile 0 (s.ofile p) ≡ o
        → FreeFd (s.ofile p) 0 nofile o
        → Works (open_with s p ip wronly rdwr (some f, allocated s.files f))
    placed f e lf z _ found (no_fd _) =
        rw (found, open_with, fdalloc)
          (rw (fileclose_positive (allocated s.files f) f (one f))
            (failed (same_refs-Counted s (fewer (allocated s.files f) f) c (λ g. ref-back f g z))))
      where
        one : (f : ℕ) → 1 ≤ (allocated s.files f f).ref
        one f = omega (arith, ref-allocated s.files f)
    placed f e lf z _ found (fd_at n lo up free _) =
        rw (found, open_with, fdalloc)
          (returned (
            Counted-step s p n (some f) (new f) c lp up
              (λ g eq. subst (λ h. h < nfile) (some-injective eq) lf)
              (λ g. omega (arith, ref-new f g z, ap (refers g) free))))

    got :
        (o : Option ℕ)
        → find_free nfile 0 s.files ≡ o
        → FreeEntry s.files 0 nfile o
        → Works (open_file s p ip wronly rdwr)
    got _ e (no_entry _) =
        subst (λ r. Works (open_with s p ip wronly rdwr r)) (sym (filealloc-none s.files e))
          (unfold open_with in failed c)
    got _ e (entry {j = f} lo up z) =
        subst (λ r. Works (open_with s p ip wronly rdwr r)) (sym (filealloc-some s.files f e))
          (placed f e up z (find_fd nofile 0 (s.ofile p)) refl
            (find_fd_lem nofile 0 nofile (s.ofile p) refl))
