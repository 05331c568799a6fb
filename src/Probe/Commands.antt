-- ===== src/Probe/Commands.antt =====
-- The commands of oryx_probe.c and `control_write`, which runs them. An int is its bit pattern.
use oryx.Prelude.{
  ltb, leb, ◌==◌, if◌then◌else◌, length, get_elem?, ℕ, ◌+◌, ◌-◌, ◌^◌, bit_and, bit_or, Bool, true,
  false, ◌&&◌, ◌||◌, not, none, some, List, [], ◌∷◌, ◌++◌,
}
use oryx.Profiles.Text.{codes, c_string}
use oryx.Probe.Log.{logf}
use oryx.Probe.Registers.{
  Candidate, candidate_count, candidates, Kernel, ProbeState, read_candidate, write_candidate,
}

abbrev pub line_end : List ℕ
line_end = b'\n' ∷ []

-- The negated error numbers.
abbrev pub eperm : ℕ
eperm = 2 ^ 32 - 1

abbrev pub efault : ℕ
efault = 2 ^ 32 - 14

abbrev pub einval : ℕ
einval = 2 ^ 32 - 22

abbrev pub is_negative : ℕ → Bool
is_negative n = leb (2 ^ 31) n

abbrev pub logged : List ℕ → ProbeState → ProbeState
logged text m = record m { log = logf text m.log }

-- `struct poke_work`, less the fields that do_poke is given
pub record PokeWork : Type 0 where
  pub before : ℕ
  pub after : ℕ

-- The loop of `do_dump` over the candidates from `i` on.
unfoldable pub dump_from : Kernel → ℕ → ℕ → List Candidate → ProbeState → ProbeState
dump_from k cpu i [] m = m
dump_from k cpu i (c ∷ cs) m =
    let v = read_candidate (m.regs cpu) i in
    let line =
      codes "  ["
      ++ (k.show_int i
          ++ (codes "] "
              ++ (k.pad16 c.name
                  ++ (codes " = 0x"
                      ++ (k.show_hex16 v
                          ++ ((if c.writable then [] else codes "  (ro)") ++ line_end)))))) in
    dump_from k cpu (i + 1) cs (logged line m)

unfoldable pub do_dump : Kernel → ℕ → ProbeState → ProbeState
do_dump k cpu m = dump_from k cpu 0 candidates m

-- `v |= (1ULL << bit)` or `v &= ~(1ULL << bit)`
unfoldable pub poked : ℕ → Bool → ℕ → ℕ
poked bit true v = bit_or v (2 ^ bit)
poked bit false v = bit_and v (2 ^ 64 - 1 - 2 ^ bit)

unfoldable pub do_poke : Kernel → ℕ → ℕ → ℕ → ℕ → ProbeState → ProbeState × PokeWork
do_poke k cpu idx bit val m =
    let v = read_candidate (m.regs cpu) idx in
    let m' = write_candidate k cpu idx (poked bit (not (val == 0)) v) m in
    (m', record { before = v; after = read_candidate (m'.regs cpu) idx })

-- The loop of `cmd_list`.
unfoldable pub list_from : Kernel → ℕ → List Candidate → ProbeState → ProbeState
list_from k i [] m = m
list_from k i (c ∷ cs) m =
    let line =
      codes "  ["
      ++ (k.show_int i
          ++ (codes "] "
              ++ (k.pad16 c.name
                  ++ (codes " "
                      ++ ((if c.writable then codes "rw" else codes "ro") ++ line_end))))) in
    list_from k (i + 1) cs (logged line m)

unfoldable pub cmd_list : Kernel → ProbeState → ProbeState
cmd_list k m = list_from k 0 candidates (logged (codes "candidate registers:" ++ line_end) m)

abbrev pub no_cpu : Kernel → ℕ → Bool
no_cpu k cpu = is_negative cpu || (leb k.nr_cpu_ids cpu || not (k.cpu_online cpu))

unfoldable pub cmd_dump : Kernel → ℕ → ProbeState → ProbeState × ℕ
cmd_dump k cpu m =
    if no_cpu k cpu
    then (m, einval)
    else (let m' = logged (codes "dump on cpu " ++ (k.show_int cpu ++ (codes ":" ++ line_end))) m in
        ((if k.call_error cpu == 0 then do_dump k cpu m' else m'), k.call_error cpu))

-- `candidates[idx].writable`; the caller has tested the index.
abbrev pub is_writable : ℕ → Bool
is_writable idx = elim (get_elem? candidates idx) [ none ↦ false | some c ↦ c.writable ]

abbrev pub name_of : ℕ → List ℕ
name_of idx = elim (get_elem? candidates idx) [ none ↦ [] | some c ↦ c.name ]

-- The line that a poke leaves in the log.
unfoldable pub poke_line : Kernel → ℕ → ℕ → ℕ → ℕ → PokeWork → List ℕ
poke_line k idx bit cpu val w =
    codes "poke "
    ++ (name_of idx
        ++ (codes " bit "
            ++ (k.show_int bit
                ++ (codes " = "
                    ++ (k.show_int val
                        ++ (codes " on cpu "
                            ++ (k.show_int cpu
                                ++ (codes ": 0x"
                                    ++ (k.show_hex16 w.before
                                        ++ (codes " -> 0x"
                                            ++ (k.show_hex16 w.after
                                                ++ ((if w.after == w.before
                                                      then codes "  (NO CHANGE "
                                                        ++ (0xE2
                                                            ∷ 0x80
                                                            ∷ 0x94
                                                            ∷ codes " bit ignored/RAZ)")
                                                      else [])
                                                    ++ line_end))))))))))))

unfoldable pub cmd_poke : Kernel → ℕ → ℕ → ℕ → ℕ → ProbeState → ProbeState × ℕ
cmd_poke k idx bit cpu val m =
    if is_negative idx || leb candidate_count idx
    then (m, einval)
    else (if not (is_writable idx)
        then (m, eperm)
        else (if is_negative bit || ltb 63 bit
            then (m, einval)
            else (if no_cpu k cpu
                then (m, einval)
                else (if not (k.call_error cpu == 0)
                    then (m, k.call_error cpu)
                    else (let r = do_poke k cpu idx bit val m in
                        (logged (poke_line k idx bit cpu val r.1) r.0, 0))))))

-- What a write to the file returns: the bytes taken, or an error.
pub data WriteReply : Type 0 where
  accepted failed : ℕ → WriteReply

-- `strncmp` with a prefix
unfoldable pub starts_with : List ℕ → List ℕ → Bool
starts_with [] s = true
starts_with (c ∷ p) [] = false
starts_with (c ∷ p) (d ∷ s) = c == d && starts_with p s

-- The command in `kbuf`.
unfoldable pub run_command : Kernel → List ℕ → ProbeState → ProbeState × ℕ
run_command k kbuf m =
    if starts_with (codes "list") kbuf then (cmd_list k m, 0) else (elim (k.scan_dump kbuf) [
      | some cpu ↦ cmd_dump k cpu m
      | none ↦ elim (k.scan_poke kbuf) [
        | some (idx, bit, cpu, val) ↦ cmd_poke k idx bit cpu val m
        | none ↦
            if starts_with (codes "clearlog") kbuf then (record m { log = [] }, 0) else (m, einval)
      ]
    ])

-- The end of `control_write` for a command that returned `ret`.
unfoldable pub finish_write : Kernel → ℕ → ProbeState × ℕ → ProbeState × WriteReply
finish_write k len (m, ret) =
    if not (ret == 0)
    then (
      logged (codes "error: command failed (" ++ (k.show_int ret ++ (codes ")" ++ line_end))) m,
      failed ret,
    )
    else (m, accepted len)

-- `copied` says whether `copy_from_user` succeeds.
unfoldable pub control_write : Kernel → Bool → List ℕ → ProbeState → ProbeState × WriteReply
control_write k copied bytes m =
    if leb 64 (length bytes)
    then (m, failed einval)
    else (if not copied
        then (m, failed efault)
        else finish_write k (length bytes) (run_command k (c_string bytes) m))

-- `oryx_probe_init`; `dir` is the error of `debugfs_create_dir`, 0 if there is none.
unfoldable pub probe_init : Kernel → ℕ → ProbeState → ProbeState × ℕ
probe_init k dir m = if not (dir == 0) then (m, dir) else (
  record m {
    log =
        logf
          (codes "oryx_probe loaded. DANGEROUS. Candidate count = "
            ++ (k.show_int candidate_count ++ (codes "." ++ line_end)))
          [];
  },
  0,
)
