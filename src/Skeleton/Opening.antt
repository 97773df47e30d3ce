-- ===== src/Skeleton/Opening.antt =====
-- The functions that open a skeleton: they open it or leave nothing behind, on every error path.
use hello_e_bpf.Prelude.{
  zero, suc, ◌≡◌, ◌≢◌, refl, ap, ◌∙◌, ◌⊎◌, inl, inr, Bool-cases, true, false, none, some, arith, ℤ,
  pos, negsuc, neg, is_zero,
}
use hello_e_bpf.Outcome.{Outcome, done}
use mathlib.Core.List.{map}
use hello_e_bpf.Skeleton.Layout.{filled_map}
use hello_e_bpf.Skeleton.Steps.{bpf_of_shape, object_of_shape}
use hello_e_bpf.Skeleton.Memory.{place, object, map_skeletons, Ptr, bpf, live, write, Machine}
use hello_e_bpf.Skeleton.Libbpf.{AreMapped, Libbpf, IsLibbpf, shape, Keeps}
use hello_e_bpf.Skeleton.Layout.{Layout}
use hello_e_bpf.Skeleton.Generated.{
  enomem, with_data, destroy, open_failed, open_opts, open_bpf, open_and_load,
}
use hello_e_bpf.Skeleton.Steps.{free_live, skeleton_of-shape, live_of_shape, calloc_cases}
use hello_e_bpf.Skeleton.Programs.{IsComplete, Created}
use hello_e_bpf.Skeleton.Creation.{create_skeleton-Creates}
use hello_e_bpf.Skeleton.Lifetime.{
  Owned, SameLive, Owned-Keeps, load-Owned, destroy-Owned, ne-==_zero,
}

-- A skeleton that has just been opened: it is owned, and its sections are mapped,
-- but .kconfig.
pub record Opened {World : Type 0} (layout : Layout) (m : Machine World) (obj : Ptr)
    (t : Machine World) : Type 0 where
  pub owned : Owned obj m t
  pub sections : AreMapped t obj (map (filled_map obj) layout.map_table)

module _ {lib : Libbpf} (laws : IsLibbpf lib) where
  abbrev M : Type 0
  M = Machine lib.World

  -- `open` has failed: NULL, an error in errno, and as much allocated as before. Or it has opened a
  -- skeleton.
  abbrev pub Opens : (m : M) → (Ptr → M → Type 0) → Outcome (Ptr × M) → Type 0
  Opens m P outcome =
      ((t : M) × (outcome ≡ done (0, t)) × SameLive m t × (t.errno ≢ pos 0))
      ⊎ ((obj : Ptr) × (t : M) × (outcome ≡ done (obj, t)) × P obj t)

  neg-ne-zero : (err : ℤ) → is_zero err ≡ false → neg err ≢ pos 0
  neg-ne-zero (pos zero) h = cc
  neg-ne-zero (pos (suc n)) h = λ e. cc
  neg-ne-zero (negsuc n) h = λ e. ground arith

  -- The error path after libbpf has refused an open skeleton.
  open_failed-Opens :
      {P : Ptr → M → Type 0} {obj : Ptr} {m : M} (t : M) (err : ℤ)
      → Owned obj m t
      → is_zero err ≡ false
      → Opens m P (open_failed lib obj err t)
  unfolding open_failed
  open_failed-Opens t err o bad =
      let (u, destroyed, same) = destroy-Owned laws t o in
      inl (record u { errno = neg err }, rw (destroyed, open_failed), same, neg-ne-zero err bad)

  module _ (layout : Layout) (complete : IsComplete layout) (m : M) where
    module _ (obj : Ptr) (ne : obj ≢ 0) (new : m.heap obj ≡ none) where
      -- The struct has just been allocated.
      abbrev with_struct : M
      with_struct = record m {
        world = (lib.calloc m).1;
        heap = write m.heap obj (some (bpf 0 λ _. 0));
      }

      Created-Owned :
          (t : M)
          → Created laws layout complete obj (λ _. 0) with_struct t
          → (o : Owned obj m t) × (o.sk.obj ≡ some (place obj object))
            × (t.heap o.sk.map_array ≡ some (map_skeletons (map (filled_map obj) layout.map_table)))
      unfolding write
      Created-Owned t c =
          let off_s : c.s ≢ obj = ground arith in
          let off_maps : c.maps ≢ obj = ground arith in
          let off_progs : c.progs ≢ obj = ground arith in
          let new_s : m.heap c.s ≡ none = ground arith in
          let new_maps : m.heap c.maps ≡ none = ground arith in
          let new_progs : m.heap c.progs ≡ none = ground arith in
          (
            record {
              skeleton = c.s;
              sk = with_data lib layout obj c.maps c.progs;
              obj_nonnull = ne;
              skeleton_nonnull = ground arith;
              at_obj = ground (arith, c.heap_is obj);
              at_skeleton = ground (arith, c.heap_is c.s);
              apart = ground arith;
              new_obj = rw new;
              new_parts = λ a part. ground arith;
              rest = λ a. ground (arith, c.heap_is a);
            },
            refl,
            ground (arith, c.heap_is c.maps),
          )

      -- Where creating the skeleton has failed, the struct is freed.
      gave_up :
          {P : Ptr → M → Type 0} (t : M) (err : ℤ)
          → Keeps with_struct t
          → is_zero err ≡ false
          → Opens m P (open_failed lib obj err t)
      unfolding open_failed destroy write
      gave_up t err keeps bad =
          let shaped : shape (t.heap obj) ≡ some (bpf 0 λ _. 0) = ground (arith, keeps obj) in
          let alive : live t obj ≡ true =
            live_of_shape with_struct t obj (keeps obj) ∙ ground arith in
          inl (
            record t { heap = write t.heap obj none; errno = neg err },
            rw (
              ne-==_zero obj ne,
              open_failed,
              skeleton_of-shape t obj shaped,
              free_live t ne alive,
            ),
            λ a.
                ground
                  (arith, live_of_shape with_struct t a (keeps a), ap m.heap {x = a} {y = obj}),
            neg-ne-zero err bad,
          )

    Opened-maps :
        {obj : Ptr} (opts : Ptr) (t : M) (o : Owned obj m t)
        → o.sk.obj ≡ some (place obj object)
        → t.heap o.sk.map_array ≡ some (map_skeletons (map (filled_map obj) layout.map_table))
        → is_zero (lib.open_skeleton o.skeleton opts t).0 ≡ true
        → Opened layout m obj (lib.open_skeleton o.skeleton opts t).1
    Opened-maps {obj} opts t o its_obj array fine =
        let (slots, at_obj) = bpf_of_shape (t.heap obj) o.at_obj in
        record {
          owned = Owned-Keeps laws _ o (laws.open_keeps o.skeleton opts t);
          sections =
              laws.open_maps o.skeleton opts obj o.skeleton slots o.sk _ t
                (object_of_shape _ o.at_skeleton) array its_obj at_obj fine;
        }

    -- open either fails, with NULL, an error in errno and nothing left allocated, or gives an open
    -- skeleton, whatever fails: an allocation or libbpf.
    pub open_opts-Opens : (opts : Ptr) → Opens m (Opened layout m) (open_opts lib layout opts m)
    unfolding open_opts write
    open_opts-Opens opts = elim (calloc_cases laws (bpf 0 λ _. 0) m) [
      | inl failed ↦ inl (
        record m { world = (lib.calloc m).1; errno = enomem },
        rw (failed, open_opts),
        λ a. refl,
        λ e. ground arith,
      )
      | inr (obj, ne, new, got) ↦
          let m₁ : M = with_struct obj ne new in
          rw (got, open_opts, ne-==_zero obj ne)
            (elim (create_skeleton-Creates laws layout complete {obj = obj} {slots = λ _. 0} m₁
              (ground arith)) [
                | inl (t, gave, keeps) ↦
                    rw (gave, open_opts) (gave_up obj ne new t (neg enomem) keeps refl)
                | inr (t, made, created) ↦
                    let (o, its_obj, array) = Created-Owned obj ne new t created in
                    let t' : M = (lib.open_skeleton o.skeleton opts t).1 in
                    let o' = Owned-Keeps laws t' o (laws.open_keeps o.skeleton opts t) in
                    rw (made, open_opts, skeleton_of-shape t obj o.at_obj)
                      (elim (Bool-cases (is_zero (lib.open_skeleton o.skeleton opts t).0)) [
                        | inl fine ↦
                            inr (
                              obj,
                              t',
                              rw (fine, open_opts),
                              Opened-maps opts t o its_obj array fine,
                            )
                        | inr bad ↦ rw (bad, open_opts) (open_failed-Opens t' _ o' bad)
                      ])
              ])
    ]

  -- So does open_and_load: it destroys what it has opened if libbpf does not load it.
  pub open_and_load-Opens :
      (layout : Layout)
      → IsComplete layout
      → (m : M) → Opens m (λ obj t. Owned obj m t) (open_and_load lib layout m)
  unfolding open_and_load open_bpf
  open_and_load-Opens layout complete m = elim (open_opts-Opens layout complete m 0) [
    | inl (t, failed, same, err) ↦ inl (t, rw (failed, open_and_load), same, err)
    | inr (obj, t, opened, is_open) ↦
        let o = is_open.owned in
        let (err, u, loads, o') = load-Owned laws t o in
        rw (opened, open_and_load, ne-==_zero obj o.obj_nonnull, loads)
          (elim (Bool-cases (is_zero err)) [
            | inl fine ↦ inr (obj, u, rw (fine, open_and_load), o')
            | inr bad ↦ rw (bad, open_and_load) (open_failed-Opens u err o' bad)
          ])
  ]
