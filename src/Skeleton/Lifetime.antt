-- ===== src/Skeleton/Lifetime.antt =====
-- What an open skeleton owns while it is used, and that destroying it gives all of it back.
use hello_e_bpf.Prelude.{
  ◌≡◌, ◌≢◌, refl, sym, ap, ◌∙◌, Bool, true, false, Option, none, some, ◌==◌, if◌then◌else◌, arith,
  ℤ,
}
use hello_e_bpf.Outcome.{done}
use hello_e_bpf.Skeleton.Memory.{
  Ptr, Block, bpf, object_skeleton, ObjectSkeleton, is_live, live, write, Machine,
}
use hello_e_bpf.Skeleton.Libbpf.{Libbpf, IsLibbpf, shape, Keeps, is_part}
use hello_e_bpf.Skeleton.Generated.{destroy, load, attach, detach}
use hello_e_bpf.Skeleton.Steps.{
  is_live-shape, object_of_shape, free_live, skeleton_of-shape, live_of_shape,
}

-- The state `t` is `m` and besides it the open skeleton `obj`: the struct, and the blocks of its
-- skeleton, all of them new.
pub record Owned {World : Type 0} (obj : Ptr) (m t : Machine World) : Type 0 where
  pub skeleton : Ptr
  pub sk : ObjectSkeleton
  pub obj_nonnull : obj ≢ 0
  pub skeleton_nonnull : skeleton ≢ 0
  pub at_obj : shape (t.heap obj) ≡ some (bpf skeleton λ _. 0)
  pub at_skeleton : shape (t.heap skeleton) ≡ some (object_skeleton sk)
  pub apart : is_part skeleton sk obj ≡ false
  pub new_obj : live m obj ≡ false
  pub new_parts : (a : Ptr) → is_part skeleton sk a ≡ true → live m a ≡ false
  pub rest :
      (a : Ptr)
      → live t a ≡ (if a == obj then true else if is_part skeleton sk a then true else live m a)

-- As much is allocated as before.
abbrev pub SameLive : {World : Type 0} → Machine World → Machine World → Type 0
SameLive m t = (a : Ptr) → live t a ≡ live m a

is_live-if :
    (b : Bool) (x : Option Block)
    → is_live (if b then none else shape x) ≡ (if b then false else is_live x)
is_live-if true x = refl
is_live-if false x = is_live-shape x

pub ne-==_zero : (p : Ptr) → p ≢ 0 → (p == 0) ≡ false
ne-==_zero p ne = ground arith

module _ {lib : Libbpf} (laws : IsLibbpf lib) where
  abbrev M : Type 0
  M = Machine lib.World

  pub Owned-Keeps : {obj : Ptr} {m t : M} (t' : M) → Owned obj m t → Keeps t t' → Owned obj m t'
  Owned-Keeps {obj} {t} t' o keeps = record {
    skeleton = o.skeleton;
    sk = o.sk;
    obj_nonnull = o.obj_nonnull;
    skeleton_nonnull = o.skeleton_nonnull;
    at_obj = keeps obj ∙ o.at_obj;
    at_skeleton = keeps o.skeleton ∙ o.at_skeleton;
    apart = o.apart;
    new_obj = o.new_obj;
    new_parts = o.new_parts;
    rest = λ a. live_of_shape t t' a (keeps a) ∙ o.rest a;
  }

  -- `destroy` of an open skeleton frees exactly what it owns.
  pub destroy-Owned :
      {obj : Ptr} {m : M} (t : M)
      → Owned obj m t
      → (u : M) × (destroy lib obj t ≡ done (tt, u)) × SameLive m u
  unfolding destroy write
  destroy-Owned {obj} {m} t o =
      let t₁ : M = lib.destroy_skeleton o.skeleton t in
      let frees =
        laws.destroy_frees o.skeleton o.sk t o.skeleton_nonnull (object_of_shape _ o.at_skeleton) in
      let gone : (a : Ptr) → live t₁ a ≡ (if is_part o.skeleton o.sk a then false else live t a) =
        λ a.
          sym (is_live-shape (t₁.heap a))
          ∙ ap is_live (frees a)
          ∙ is_live-if (is_part o.skeleton o.sk a) (t.heap a) in
      let alive : live t₁ obj ≡ true = ground (arith, gone obj, o.rest obj) in
      let e₁ : (obj == 0) ≡ false = ne-==_zero obj o.obj_nonnull in
      let e₂ : (o.skeleton == 0) ≡ false = ne-==_zero o.skeleton o.skeleton_nonnull in
      (
        record t₁ { heap = write t₁.heap obj none },
        rw (e₁, destroy, skeleton_of-shape t obj o.at_obj, e₂, free_live t₁ o.obj_nonnull alive),
        λ a. ground (arith, gone a, o.rest a, o.new_parts a, ap (live m) {x = a} {y = obj}),
      )

  module _ {obj : Ptr} {m : M} (t : M) (o : Owned obj m t) where
    -- Loading, attaching and detaching return what libbpf says, and the skeleton stays owned.
    pub load-Owned : (err : ℤ) × (u : M) × (load lib obj t ≡ done (err, u)) × Owned obj m u
    unfolding load
    load-Owned =
        let u : M = (lib.load_skeleton o.skeleton t).1 in
        (
          (lib.load_skeleton o.skeleton t).0,
          u,
          rw (skeleton_of-shape t obj o.at_obj, load),
          Owned-Keeps u o (laws.load_keeps o.skeleton t),
        )

    pub attach-Owned : (err : ℤ) × (u : M) × (attach lib obj t ≡ done (err, u)) × Owned obj m u
    unfolding attach
    attach-Owned =
        let u : M = (lib.attach_skeleton o.skeleton t).1 in
        (
          (lib.attach_skeleton o.skeleton t).0,
          u,
          rw (skeleton_of-shape t obj o.at_obj, attach),
          Owned-Keeps u o (laws.attach_keeps o.skeleton t),
        )

    pub detach-Owned : (u : M) × (detach lib obj t ≡ done (tt, u)) × Owned obj m u
    unfolding detach
    detach-Owned =
        let u : M = lib.detach_skeleton o.skeleton t in
        (
          u,
          rw (skeleton_of-shape t obj o.at_obj, detach),
          Owned-Keeps u o (laws.detach_keeps o.skeleton t),
        )
