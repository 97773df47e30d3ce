-- ===== src/Skeleton/MinimalProgram.antt =====
-- examples/c/minimal.c over its generated skeleton, examples/c/.output/minimal.skel.h: the store of
-- its process number to the mapped section .bss, and its whole run.
use hello_e_bpf.Prelude.{ℕ, ◌≡◌, refl, Option, none, some, [], ◌∷◌, ◌==◌, if◌then◌else◌, arith, ℤ}
use hello_e_bpf.Outcome.{done, fault}
use hello_e_bpf.Outcome.Command.{Command}
use hello_e_bpf.Loader.Program.{start_message, stored_my_pid, Loader, minimal_main}
use hello_e_bpf.Loader.Runs.{Does, dot_events}
use hello_e_bpf.Loader.Mains.{Run, StoresPid, minimal_main-Run}
use hello_e_bpf.Skeleton.Memory.{
  Ptr, Block, section, bpf, object_skeleton, map_skeletons, prog_skeletons, Machine,
}
use hello_e_bpf.Skeleton.Libbpf.{Libbpf, IsLibbpf}
use hello_e_bpf.Skeleton.Programs.{IsComplete}
use hello_e_bpf.Skeleton.Lifetime.{Owned, Owned-Keeps}
use hello_e_bpf.Skeleton.Opening.{Opened}
use hello_e_bpf.Skeleton.Layouts.{minimal_layout}
use hello_e_bpf.Skeleton.Instances.{minimal_bpf}
use hello_e_bpf.Skeleton.Api.{api_of, skeleton-Lifecycle}

-- `fields` after the store of `pid` to the first of them, my_pid.
abbrev pub with_my_pid : ℤ → (ℕ → ℤ) → ℕ → ℤ
with_my_pid pid fields offset = if offset == 0 then pid else fields offset

-- skel->bss, of a struct minimal_bpf
abbrev pub bss_of : Option Block → Ptr
bss_of (some (bpf _ slots)) = slots (section "bss")
bss_of _ = 0

module _ {World : Type 0} where
  -- *bss = fields, where a section is mapped at `bss`
  abbrev pub store_section : (bss : Ptr) → (ℕ → ℤ) → Machine World → Machine World
  store_section bss fields m = record m {
    mapped = λ a. if a == bss then some fields else m.mapped a;
  }

  -- skel->bss->my_pid = pid
  unfoldable pub store_my_pid : Ptr → ℤ → Command (Machine World) (Unit {0})
  store_my_pid skel pid m = elim (m.heap skel) [
    | none ↦ fault
    | some block ↦ elim block [
      | bpf _ slots ↦
          let bss = slots (section "bss") in
          elim (m.mapped bss) [
            | none ↦ fault
            | some fields ↦ done (tt, store_section bss (with_my_pid pid fields) m)
          ]
      | object_skeleton _ ↦ fault
      | map_skeletons _ ↦ fault
      | prog_skeletons _ ↦ fault
    ]
  ]

  -- my_pid, as it stands in the mapped section.
  abbrev pub my_pid_of : (skel : Ptr) → Machine World → Option ℤ
  my_pid_of skel m = elim (m.mapped (bss_of (m.heap skel))) [
    | none ↦ none
    | some fields ↦ some (fields 0)
  ]

pub minimal-IsComplete : IsComplete minimal_layout
minimal-IsComplete = record { maps_fit = omega arith; progs_fit = omega arith }

module _ {lib : Libbpf} (laws : IsLibbpf lib) where
  -- The store to a skeleton that has just been opened is one to a mapped section: it does not fault,
  -- keeps what is owned, and leaves the process number in my_pid.
  pub store_my_pid_lem :
      (p : Ptr) (pid : ℤ) (s t : Machine lib.World)
      → Opened minimal_layout s p t
      → (u : Machine lib.World) × (store_my_pid p pid t ≡ done (tt, u))
        × Owned p s u
        × (my_pid_of p u ≡ some pid)
  unfolding store_my_pid
  store_my_pid_lem p pid s t o =
      let (skeleton, slots, fields, at_p, at_bss) = o.sections.0 "bss" (λ e. cc) refl in
      let bss = slots (section "bss") in
      (
        store_section bss (with_my_pid pid fields) t,
        rw (at_p, store_my_pid) (rw (at_bss)),
        Owned-Keeps laws _ o.owned (λ a. refl),
        rw (at_p, my_pid_of) (ground arith),
      )

  pub minimal-StoresPid :
      StoresPid (skeleton-Lifecycle laws minimal_layout minimal-IsComplete) store_my_pid
  minimal-StoresPid p pid s t o =
      let (u, stores, owned, stored) = store_my_pid_lem p pid s t o in (u, stores, owned)

  -- Any run of minimal.c over minimal.skel.h.
  pub minimal_program-Run :
      (pid : ℤ) (rounds : ℕ) (l : Loader (api_of (minimal_bpf lib)))
      → Does
          (skeleton-Lifecycle laws minimal_layout minimal-IsComplete)
          (Run (λ p. stored_my_pid p pid ∷ []) (start_message ∷ dot_events rounds))
          l.state
          l
          (minimal_main (api_of (minimal_bpf lib)) store_my_pid pid rounds)
  minimal_program-Run pid rounds l =
      minimal_main-Run (skeleton-Lifecycle laws minimal_layout minimal-IsComplete) store_my_pid pid
        minimal-StoresPid rounds l
