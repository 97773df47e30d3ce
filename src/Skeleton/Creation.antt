-- ===== src/Skeleton/Creation.antt =====
-- `__create_skeleton`: all or nothing. It hands the struct a skeleton whose arrays hold the tables of
-- the layout, or, where an allocation fails, gives back what it has allocated.
use hello_e_bpf.Prelude.{
  ◌≡◌, ◌≢◌, refl, ◌∙◌, inl, inr, false, none, some, ◌==◌, if◌then◌else◌, arith, replicate,
}
use mathlib.Core.List.{map}
use hello_e_bpf.Outcome.{done}
use hello_e_bpf.Skeleton.Memory.{
  Ptr, Slot, Block, bpf, object_skeleton, map_skeletons, write, Machine,
}
use hello_e_bpf.Skeleton.Libbpf.{Libbpf, IsLibbpf}
use hello_e_bpf.Skeleton.Layout.{Layout, empty_map, filled_map}
use hello_e_bpf.Skeleton.Generated.{calloc, empty_skeleton, with_maps, create_maps, create_skeleton}
use hello_e_bpf.Skeleton.Steps.{store_live, calloc_cases}
use hello_e_bpf.Skeleton.Programs.{IsComplete, fill_maps-replicate, Creates, create_progs-Creates}

module _ {lib : Libbpf} (laws : IsLibbpf lib) (layout : Layout) (complete : IsComplete layout) where
  abbrev M : Type 0
  M = Machine lib.World

  module _ {obj : Ptr} {slots : Slot → Ptr} (m : M) (at_obj : m.heap obj ≡ some (bpf 0 slots)) where
    module _ (s : Ptr) (nz : s ≢ 0) (new_s : m.heap s ≡ none) where
      module _ (m₁ : M)
          (h : (a : Ptr)
            → m₁.heap a
              ≡ (if a == s then some (object_skeleton (empty_skeleton lib)) else m.heap a)) where
        at_s₁ : m₁.heap s ≡ some (object_skeleton (empty_skeleton lib))
        at_s₁ = ground (arith, h s)

        create_maps-failed :
            calloc lib (map_skeletons (replicate layout.map_cnt empty_map)) m₁
              ≡ done (0, record m₁ { world = (lib.calloc m₁).1 })
            → Creates laws layout complete obj slots m (create_maps lib layout obj s m₁)
        unfolding create_maps write
        create_maps-failed failed =
            let sk = with_maps lib layout obj 0 in
            let m₂ : M = record m₁ { world = (lib.calloc m₁).1 } in
            let m₃ : M = record m₂ { heap = write m₁.heap s (some (object_skeleton sk)) } in
            let at_s₃ : m₃.heap s ≡ some (object_skeleton sk) = ground arith in
            inl (
              lib.destroy_skeleton s m₃,
              rw (failed, create_maps, store_live m₂ (object_skeleton sk) at_s₁),
              λ a. laws.destroy_frees s sk m₃ nz at_s₃ a ∙ ground (arith, h a),
            )

        create_maps-made :
            (maps : Ptr)
            → maps ≢ 0
            → m₁.heap maps ≡ none
            → calloc lib (map_skeletons (replicate layout.map_cnt empty_map)) m₁
              ≡ done (
                maps,
                record m₁ {
                  world = (lib.calloc m₁).1;
                  heap =
                      write m₁.heap maps
                        (some (map_skeletons (replicate layout.map_cnt empty_map)));
                },
              )
            → Creates laws layout complete obj slots m (create_maps lib layout obj s m₁)
        unfolding create_maps write
        create_maps-made maps ne new got =
            let blank : Block = map_skeletons (replicate layout.map_cnt empty_map) in
            let filled = map (filled_map obj) layout.map_table in
            let m₂ : M = record m₁ {
              world = (lib.calloc m₁).1;
              heap = write m₁.heap maps (some blank);
            } in
            let sk₃ : Block = object_skeleton (with_maps lib layout obj maps) in
            let m₃ : M = record m₂ { heap = write m₂.heap s (some sk₃) } in
            let m₄ : M = record m₃ { heap = write m₃.heap maps (some (map_skeletons filled)) } in
            let nonzero : (maps == 0) ≡ false = ground arith in
            let off_s : maps ≢ s = ground (arith, at_s₁) in
            let at_s₂ : m₂.heap s ≡ some (object_skeleton (empty_skeleton lib)) =
              ground (arith, at_s₁) in
            let at_maps₃ : m₃.heap maps ≡ some blank = ground arith in
            rw
              (
                got,
                create_maps,
                store_live m₂ sk₃ at_s₂,
                nonzero,
                fill_maps-replicate obj layout.map_table layout.map_cnt complete.maps_fit,
                store_live m₃ (map_skeletons filled) at_maps₃,
              )
              (create_progs-Creates laws layout complete m at_obj s maps ne nz new_s
                (ground (arith, h maps)) off_s m₄ λ a. ground (arith, h a))

        create_maps-Creates :
            Creates laws layout complete obj slots m (create_maps lib layout obj s m₁)
        create_maps-Creates =
            elim (calloc_cases laws (map_skeletons (replicate layout.map_cnt empty_map)) m₁) [
              | inl failed ↦ create_maps-failed failed
              | inr (maps, ne, new, got) ↦ create_maps-made maps ne new got
            ]

    -- From a struct whose skeleton is NULL: either an allocation has failed, -ENOMEM is returned and
    -- the same addresses hold blocks of the same kinds as before, or 0 is returned and there are three new
    -- blocks, filled from the tables, which the struct points to.
    pub create_skeleton-Creates :
        Creates laws layout complete obj slots m (create_skeleton lib layout obj m)
    unfolding create_skeleton write
    create_skeleton-Creates = elim (calloc_cases laws (object_skeleton (empty_skeleton lib)) m) [
      | inl failed ↦
          let m₁ : M = record m { world = (lib.calloc m).1 } in
          inl (lib.destroy_skeleton 0 m₁, rw (failed, create_skeleton), laws.destroy_null m₁)
      | inr (s, ne, new, got) ↦
          let nonzero : (s == 0) ≡ false = ground arith in
          rw (got, create_skeleton, nonzero)
            (create_maps-Creates s ne new
              (record m {
                world = (lib.calloc m).1;
                heap = write m.heap s (some (object_skeleton (empty_skeleton lib)));
              })
              λ a. refl)
    ]
