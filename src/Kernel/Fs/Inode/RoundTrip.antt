-- ===== src/Kernel/Fs/Inode/RoundTrip.antt =====
-- `readi` of xv6/fs.c, alone and after `writei`.
use laboratorio_lukitas.Common.{
  ℕ, ◌+◌, ◌-◌, ◌/◌, ◌%◌, ◌≤◌, ◌<◌, ◌≡◌, sym, ◌∙◌, ap, subst, ◌≢◌, ◌⊎◌, inl, inr, Bool, true, Option,
  none, some, arith, ltb, if◌then◌else◌, eq_cases, lt_cases, Bool-cases,
}
use laboratorio_lukitas.Kernel.Fs.Disk.{Fs}
use laboratorio_lukitas.Kernel.Fs.Inode.{
  Inode, Memory, Read, read_panics, read_fails, reads, Write, writes, t_dev, u32, read_blocks,
  readi, writei,
}
use laboratorio_lukitas.Kernel.Fs.Inode.Slots.{slot, IsFile}
use laboratorio_lukitas.Kernel.Fs.Inode.Reading.{
  Copied, ReadLoop, read_stuck, read_all, read_blocks_lem,
}
use laboratorio_lukitas.Kernel.Fs.Inode.Scarce.{Scarce}
use laboratorio_lukitas.Kernel.Fs.Inode.Transfer.{
  Written, FileWrite, refused, disk_full, done, Refused, bigger, writei_lem,
}

-- What `readi` reads of the bytes asked for.
abbrev pub available : Inode → ℕ → ℕ → ℕ
available ip off n = if ltb ip.size (off + n) then ip.size - off else n

-- What `readi` does to a file, on each branch.
pub data FileRead (f : Fs) (ip : Inode) (dst off n : ℕ) (mem : Memory) : Read → Type 0 where
  past_end : (ip.size < off) ⊎ (u32 ≤ off + n) → FileRead f ip dst off n mem read_fails
  no_block :
      (o : ℕ)
      → off ≤ o
      → o < off + available ip off n
      → slot f ip (o / 512) ≡ 0
      → Scarce f ip off o
      → FileRead f ip dst off n mem read_panics
  bytes_read :
      {mem' : Memory} {ip' : Inode} {f' : Fs}
      → off ≤ ip.size
      → Copied f ip dst off (available ip off n) mem mem' ip' f'
      → FileRead f ip dst off n mem (reads (available ip off n) mem' ip' f')

-- On a well-formed file, `readi` refuses to start past the end; else it copies the content, up to the
-- end of the file, and leaves the file and the rest of the memory as they were. Where the log takes
-- every block, it panics only at a hole in the range, when there are no more free blocks than holes
-- before it in the range, with the indirect block as one if the file has none.
pub readi_lem :
    (has_device : ℕ → Bool) (f : Fs) (ip : Inode) (dst off n : ℕ) (mem : Memory)
    → IsFile f ip
    → ip.size ≤ 71680
    → ip.type ≢ t_dev
    → n < u32
    → FileRead f ip dst off n mem (readi has_device f ip dst off n mem)
unfolding readi
readi_lem has_device f ip dst off n mem x bounded not_device small = elim (eq_cases ip.type t_dev) [
  | inl (e, _) ↦ absurd (not_device e)
  | inr (_, t) ↦ elim (lt_cases ip.size off) [
    | inl (l, u) ↦ rw (t, u, readi) (past_end (inl l))
    | inr (le, u) ↦ elim (Bool-cases (ltb ((off + n) % u32) off)) [
      | inl v ↦ rw (t, u, v, readi) (past_end (inr (over v)))
      | inr v ↦
          rw (t, u, v, readi)
            (ended le (read_blocks (available ip off n) f ip dst off (available ip off n) mem) (
              read_blocks_lem (available ip off n) f ip dst off (available ip off n) mem x
                (omega arith) (fits le)))
    ]
  ]
]
  where
    over : ltb ((off + n) % u32) off ≡ true → u32 ≤ off + n
    over v = ground arith

    fits : off ≤ ip.size → off + available ip off n ≤ 71680
    fits le = ground arith

    ended :
        off ≤ ip.size
        → (o : Option (Memory × Inode × Fs)) → ReadLoop f ip dst off (available ip off n) mem o
        → FileRead f ip dst off n mem (elim o as (λ _. Read) [
          | none ↦ read_panics
          | some r ↦ reads (available ip off n) r.0 r.1 r.2
        ])
    ended le _ (read_stuck o lo hi empty scarce) = no_block o lo hi empty scarce
    ended le _ (read_all y) = bytes_read le y

-- The result of a read of `n` bytes that are those at `src`.
pub data ReadsBack (dst src n : ℕ) (mem : Memory) : Read → Type 0 where
  reads_back :
      {mem' : Memory} {ip' : Inode} {f' : Fs}
      → ((i : ℕ) → i < n → mem' (dst + i) ≡ mem (src + i))
      → ReadsBack dst src n mem (reads n mem' ip' f')

Written-ReadsBack :
    (has_device : ℕ → Bool) (f : Fs) (ip : Inode) (src dst off n : ℕ) (mem : Memory) (ip' : Inode)
    (f' : Fs)
    → Written f ip src off n mem ip' f'
    → off ≤ ip.size
    → ip.size ≤ 71680
    → off + n ≤ 71680
    → ip.type ≢ t_dev
    → ReadsBack dst src n mem (readi has_device f' ip' dst off n mem)
Written-ReadsBack has_device f ip src dst off n mem ip' f' w start bounded room not_device =
    back (readi has_device f' ip' dst off n mem) (
      readi_lem has_device f' ip' dst off n mem w.file size_bound
        (λ e. not_device (sym (ap (λ (k : Inode). k.type) w.fields) ∙ e)) (omega arith))
  where
    size : ip'.size ≡ bigger n (off + n) ip.size
    size = ap (λ (k : Inode). k.size) w.fields

    size_bound : ip'.size ≤ 71680
    size_bound = ground (arith, size)

    enough : off ≤ ip'.size
    enough = ground (arith, size)

    whole : available ip' off n ≡ n
    whole = ground (arith, size)

    back : (r : Read) → FileRead f' ip' dst off n mem r → ReadsBack dst src n mem r
    back _ (past_end (inl l)) = absurd (omega (arith, enough))
    back _ (past_end (inr l)) = absurd (omega arith)
    back _ (no_block o lo hi empty _) =
        let same : off + (o - off) ≡ o = omega arith in
        absurd (
          w.present (o - off) (omega (arith, whole)) (ap (λ k. slot f' ip' (k / 512)) same ∙ empty))
    back _ (bytes_read {mem'} {ip' = ip''} {f' = f''} le y) =
        subst (λ k. ReadsBack dst src n mem (reads k mem' ip'' f'')) (sym whole)
          (reads_back (λ i l. y.bytes i (omega (arith, whole)) ∙ w.bytes i l))

writes-injective :
    {n k : ℕ} {ip ip' : Inode} {f f' : Fs}
    → writes n ip f ≡ writes k ip' f'
    → (n ≡ k) × (ip ≡ ip') × (f ≡ f')
writes-injective {n} {k} {ip} {ip'} {f} {f'} e = (
  ap (λ r. elim r [ writes m _ _ ↦ m | _ ↦ n ]) e,
  ap (λ r. elim r [ writes _ i _ ↦ i | _ ↦ ip ]) e,
  ap (λ r. elim r [ writes _ _ g ↦ g | _ ↦ f ]) e,
)

-- When `writei` on a well-formed file returns a count, that is the count of bytes asked for, and
-- `readi` at the same offset in the file as it is then returns the same count and gives back the
-- same bytes, without a panic.
pub readi-writei :
    (has_device : ℕ → Bool) (f : Fs) (ip : Inode) (src dst off n k : ℕ) (mem : Memory) (ip' : Inode)
    (f' : Fs)
    → IsFile f ip
    → ip.inum < f.sb.ninodes
    → ip.size ≤ 71680
    → ip.type ≢ t_dev
    → n < u32
    → writei has_device f ip src off n mem ≡ writes k ip' f'
    → (k ≡ n) × ReadsBack dst src n mem (readi has_device f' ip' dst off k mem)
readi-writei has_device f ip src dst off n k mem ip' f' x known bounded not_device small e =
    returned (writei has_device f ip src off n mem)
      (writei_lem has_device f ip src off n mem x known not_device small) e
  where
    returned :
        (r : Write)
        → FileWrite f ip src off n mem r
        → r ≡ writes k ip' f'
        → (k ≡ n) × ReadsBack dst src n mem (readi has_device f' ip' dst off k mem)
    returned _ (refused _) e = cc e
    returned _ (disk_full _ _ _ _ _) e = cc e
    returned _ (done {ip' = ip1} {f' = f1} allowed w) e =
        let (count, same_ip, same_f) = writes-injective e in
        (
          sym count,
          subst (λ m. ReadsBack dst src n mem (readi has_device f' ip' dst off m mem)) count
              (subst (λ g. ReadsBack dst src n mem (readi has_device g ip' dst off n mem)) same_f
                (subst (λ i. ReadsBack dst src n mem (readi has_device f1 i dst off n mem)) same_ip
                  (Written-ReadsBack has_device f ip src dst off n mem ip1 f1 w (start allowed)
                    bounded (room allowed) not_device))),
        )
      where
        start : ¬ Refused ip off n → off ≤ ip.size
        start allowed = elim (lt_cases ip.size off) [
          | inl (l, _) ↦ absurd (allowed (inl l))
          | inr (l, _) ↦ l
        ]

        room : ¬ Refused ip off n → off + n ≤ 71680
        room allowed = elim (lt_cases 71680 (off + n)) [
          | inl (l, _) ↦ absurd (allowed (inr l))
          | inr (l, _) ↦ l
        ]
