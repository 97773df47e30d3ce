-- ===== src/Skeleton/Programs.antt =====
-- The last part of `__create_skeleton`, from its programs on, and what the whole leaves behind.
use Prim.Native.String.{String}
use hello_e_bpf.Prelude.{
  ℕ, zero, suc, ◌≡◌, ◌≢◌, refl, ◌∙◌, ◌⊎◌, inl, inr, false, none, some, List, [], ◌∷◌, ◌==◌,
  if◌then◌else◌, arith, ℤ, pos, neg, length, replicate,
}
use mathlib.Core.List.{map}
use hello_e_bpf.Outcome.{Outcome, done}
use hello_e_bpf.Skeleton.Memory.{
  Ptr, Slot, Block, bpf, object_skeleton, map_skeletons, prog_skeletons, write, Machine,
}
use hello_e_bpf.Skeleton.Libbpf.{Libbpf, IsLibbpf, Keeps}
use hello_e_bpf.Skeleton.Layout.{
  MapEntry, Layout, empty_map, empty_prog, filled_map, filled_prog, fill_maps, fill_progs,
}
use hello_e_bpf.Skeleton.Generated.{enomem, calloc, with_maps, with_progs, with_data, create_progs}
use hello_e_bpf.Skeleton.Steps.{store_live, set_skeleton_bpf, calloc_cases}

-- The counts of a layout are the lengths of its tables.
pub record IsComplete (layout : Layout) : Type 0 where
  pub maps_fit : length layout.map_table ≡ layout.map_cnt
  pub progs_fit : length layout.prog_table ≡ layout.prog_cnt

pub fill_maps-replicate :
    (p : Ptr) (table : List MapEntry) (n : ℕ)
    → length table ≡ n
    → fill_maps p table (replicate n empty_map) ≡ some (map (filled_map p) table)
unfolding fill_maps
fill_maps-replicate p [] zero e = refl
fill_maps-replicate p [] (suc n) e = absurd (omega arith)
fill_maps-replicate p (x ∷ table) zero e = absurd (omega arith)
fill_maps-replicate p (x ∷ table) (suc n) e =
    rw (fill_maps-replicate p table n (omega arith), fill_maps)

fill_progs-replicate :
    (p : Ptr) (table : List String) (n : ℕ)
    → length table ≡ n
    → fill_progs p table (replicate n empty_prog) ≡ some (map (filled_prog p) table)
unfolding fill_progs
fill_progs-replicate p [] zero e = refl
fill_progs-replicate p [] (suc n) e = absurd (omega arith)
fill_progs-replicate p (x ∷ table) zero e = absurd (omega arith)
fill_progs-replicate p (x ∷ table) (suc n) e =
    rw (fill_progs-replicate p table n (omega arith), fill_progs)

module _ {lib : Libbpf} (laws : IsLibbpf lib) (layout : Layout) (complete : IsComplete layout) where
  abbrev pub M : Type 0
  M = Machine lib.World

  -- The state `t` is `m` with a skeleton for the struct `obj`: three new blocks, filled from the
  -- tables, and the struct's pointer to the first.
  pub record Created (obj : Ptr) (slots : Slot → Ptr) (m t : M) : Type 0 where
    pub s : Ptr
    pub maps : Ptr
    pub progs : Ptr
    pub nonnull : (s ≢ 0) × (maps ≢ 0) × (progs ≢ 0)
    pub new : (m.heap s ≡ none) × (m.heap maps ≡ none) × (m.heap progs ≡ none)
    pub apart : (maps ≢ s) × (progs ≢ s) × (progs ≢ maps)
    pub heap_is :
        (a : Ptr)
        → t.heap a ≡ (
            if a == obj
            then some (bpf s slots)
            else if a == s
            then some (object_skeleton (with_data lib layout obj maps progs))
            else if a == maps
            then some (map_skeletons (map (filled_map obj) layout.map_table))
            else if a == progs
            then some (prog_skeletons (map (filled_prog obj) layout.prog_table))
            else m.heap a)

  abbrev pub Creates : (obj : Ptr) (slots : Slot → Ptr) (m : M) → Outcome (ℤ × M) → Type 0
  Creates obj slots m outcome =
      ((t : M) × (outcome ≡ done (neg enomem, t)) × Keeps m t)
      ⊎ ((t : M) × (outcome ≡ done (pos 0, t)) × Created obj slots m t)

  module _ {obj : Ptr} {slots : Slot → Ptr} (m : M) (at_obj : m.heap obj ≡ some (bpf 0 slots)) where
    module _ (s maps : Ptr) (mz : maps ≢ 0) (nz : s ≢ 0) (new_s : m.heap s ≡ none)
        (new_maps : m.heap maps ≡ none) (apart : maps ≢ s) where
      module _ (m₃ : M)
          (h : (a : Ptr)
            → m₃.heap a ≡ (
                if a == s
                then some (object_skeleton (with_maps lib layout obj maps))
                else if a == maps
                then some (map_skeletons (map (filled_map obj) layout.map_table))
                else m.heap a)) where
        at_s : m₃.heap s ≡ some (object_skeleton (with_maps lib layout obj maps))
        at_s = ground (arith, h s)

        create_progs-failed :
            calloc lib (prog_skeletons (replicate layout.prog_cnt empty_prog)) m₃
              ≡ done (0, record m₃ { world = (lib.calloc m₃).1 })
            → Creates obj slots m (create_progs lib layout obj s maps m₃)
        unfolding create_progs write
        create_progs-failed failed =
            let sk = with_progs lib layout obj maps 0 in
            let m₄ : M = record m₃ { world = (lib.calloc m₃).1 } in
            let m₅ : M = record m₄ { heap = write m₃.heap s (some (object_skeleton sk)) } in
            let at_s₅ : m₅.heap s ≡ some (object_skeleton sk) = ground arith in
            inl (
              lib.destroy_skeleton s m₅,
              rw (failed, create_progs, store_live m₄ (object_skeleton sk) at_s),
              λ a. laws.destroy_frees s sk m₅ nz at_s₅ a ∙ ground (arith, h a),
            )

        create_progs-made :
            (progs : Ptr)
            → progs ≢ 0
            → m₃.heap progs ≡ none
            → calloc lib (prog_skeletons (replicate layout.prog_cnt empty_prog)) m₃
              ≡ done (
                progs,
                record m₃ {
                  world = (lib.calloc m₃).1;
                  heap =
                      write m₃.heap progs
                        (some (prog_skeletons (replicate layout.prog_cnt empty_prog)));
                },
              )
            → Creates obj slots m (create_progs lib layout obj s maps m₃)
        unfolding create_progs write
        create_progs-made progs ne new got =
            let blank : Block = prog_skeletons (replicate layout.prog_cnt empty_prog) in
            let filled = map (filled_prog obj) layout.prog_table in
            let m₄ : M = record m₃ {
              world = (lib.calloc m₃).1;
              heap = write m₃.heap progs (some blank);
            } in
            let sk₅ : Block = object_skeleton (with_progs lib layout obj maps progs) in
            let m₅ : M = record m₄ { heap = write m₄.heap s (some sk₅) } in
            let m₆ : M = record m₅ { heap = write m₅.heap progs (some (prog_skeletons filled)) } in
            let sk₇ : Block = object_skeleton (with_data lib layout obj maps progs) in
            let m₇ : M = record m₆ { heap = write m₆.heap s (some sk₇) } in
            let m₈ : M = record m₇ { heap = write m₇.heap obj (some (bpf s slots)) } in
            let nonzero : (progs == 0) ≡ false = ground arith in
            let off_s : progs ≢ s = ground (arith, at_s) in
            let off_maps : progs ≢ maps = ground (arith, h maps) in
            let obj_off_s : obj ≢ s = ground arith in
            let obj_off_maps : obj ≢ maps = ground arith in
            let obj_off_progs : obj ≢ progs = ground (arith, h obj) in
            let at_s₄ : m₄.heap s ≡ some (object_skeleton (with_maps lib layout obj maps)) =
              ground (arith, at_s) in
            let at_progs₅ : m₅.heap progs ≡ some blank = ground arith in
            let at_s₆ : m₆.heap s ≡ some sk₅ = ground arith in
            let at_obj₇ : m₇.heap obj ≡ some (bpf 0 slots) = ground (arith, h obj) in
            inr (
              m₈,
              rw (
                got,
                create_progs,
                store_live m₄ sk₅ at_s₄,
                nonzero,
                fill_progs-replicate obj layout.prog_table layout.prog_cnt complete.progs_fit,
                store_live m₅ (prog_skeletons filled) at_progs₅,
                store_live m₆ sk₇ at_s₆,
                set_skeleton_bpf m₇ s at_obj₇,
              ),
              record {
                s = s;
                maps = maps;
                progs = progs;
                nonnull = (nz, mz, ne);
                new = (new_s, new_maps, ground (arith, h progs));
                apart = (apart, off_s, off_maps);
                heap_is = λ a. ground (arith, h a);
              },
            )

        pub create_progs-Creates : Creates obj slots m (create_progs lib layout obj s maps m₃)
        create_progs-Creates =
            elim (calloc_cases laws (prog_skeletons (replicate layout.prog_cnt empty_prog)) m₃) [
              | inl failed ↦ create_progs-failed failed
              | inr (progs, ne, new, got) ↦ create_progs-made progs ne new got
            ]
