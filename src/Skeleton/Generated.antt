-- ===== src/Skeleton/Generated.antt =====
-- The functions of a generated skeleton, examples/c/.output/minimal.skel.h and its like, over a layout.
-- A run of assignments to one block is one store; what the source leaves to `goto` is a branch.
use hello_e_bpf.Prelude.{not, none, some, ◌==◌, if◌then◌else◌, replicate, ℤ, pos, neg, is_zero}
use hello_e_bpf.Outcome.{done, checked}
use hello_e_bpf.Outcome.Command.{Command, pure, lift, ◌>>=◌, ◌>>◌}
use hello_e_bpf.Skeleton.Memory.{
  place, Ptr, object, ObjectSkeleton, Block, bpf, object_skeleton, map_skeletons, prog_skeletons,
  write, Machine, store, free, skeleton_of, set_skeleton,
}
use hello_e_bpf.Skeleton.Libbpf.{Libbpf}
use hello_e_bpf.Skeleton.Layout.{Layout, empty_map, empty_prog, fill_maps, fill_progs}

-- ENOMEM
abbrev pub enomem : ℤ
enomem = pos 12

module _ (lib : Libbpf) where
  abbrev pub Skeletons : Type 0 → Type 0
  Skeletons = Command (Machine lib.World)

  -- calloc(n, size): zeroed memory, read here as `block`
  unfoldable pub calloc : Block → Skeletons Ptr
  calloc block m =
      let (p, w) = lib.calloc m in
      if p == 0
      then done (0, record m { world = w })
      else done (p, record m { world = w; heap = write m.heap p (some block) })

  -- A function of libbpf that returns an error code.
  abbrev pub call : (Machine lib.World → ℤ × Machine lib.World) → Skeletons ℤ
  call f m = let (err, m') = f m in done (err, m')

  abbrev pub run : (Machine lib.World → Machine lib.World) → Skeletons (Unit {0})
  run f m = done (tt, f m)

  abbrev pub set_errno : ℤ → Skeletons (Unit {0})
  set_errno e m = done (tt, record m { errno = e })

  -- `s` as calloc() makes it.
  abbrev pub empty_skeleton : ObjectSkeleton
  empty_skeleton = record {
    sz = 0;
    name = none;
    obj = none;
    map_cnt = 0;
    map_skel_sz = 0;
    map_array = 0;
    prog_cnt = 0;
    prog_skel_sz = 0;
    prog_array = 0;
    data_sz = 0;
  }

  module _ (layout : Layout) where
    -- The fields of `s` up to the assignment of s->maps, up to that of s->progs, and all.
    abbrev pub with_maps : (obj maps : Ptr) → ObjectSkeleton
    with_maps obj maps = record empty_skeleton {
      sz = lib.sizeof_object_skeleton;
      name = some layout.name;
      obj = some (place obj object);
      map_cnt = layout.map_cnt;
      map_skel_sz = lib.sizeof_map_skeleton;
      map_array = maps;
    }

    abbrev pub with_progs : (obj maps progs : Ptr) → ObjectSkeleton
    with_progs obj maps progs = record (with_maps obj maps) {
      prog_cnt = layout.prog_cnt;
      prog_skel_sz = lib.sizeof_prog_skeleton;
      prog_array = progs;
    }

    abbrev pub with_data : (obj maps progs : Ptr) → ObjectSkeleton
    with_data obj maps progs = record (with_progs obj maps progs) { data_sz = layout.data_sz }

    -- err:
    abbrev pub give_up : (s : Ptr) → (err : ℤ) → Skeletons ℤ
    give_up s err = do run (lib.destroy_skeleton s); pure err

    -- create_skeleton from the programs on
    unfoldable pub create_progs : (obj s maps : Ptr) → Skeletons ℤ
    create_progs obj s maps = do
      progs ← calloc (prog_skeletons (replicate layout.prog_cnt empty_prog))
      store s (object_skeleton (with_progs obj maps progs))
      if progs == 0 then give_up s (neg enomem) else do
        filled ←
            lift (checked (fill_progs obj layout.prog_table (replicate layout.prog_cnt empty_prog)))
        store progs (prog_skeletons filled)
        store s (object_skeleton (with_data obj maps progs))
        set_skeleton obj s
        pure (pos 0)

    -- create_skeleton from the maps on
    unfoldable pub create_maps : (obj s : Ptr) → Skeletons ℤ
    create_maps obj s = do
      maps ← calloc (map_skeletons (replicate layout.map_cnt empty_map))
      store s (object_skeleton (with_maps obj maps))
      if maps == 0 then give_up s (neg enomem) else do
        filled ←
            lift (checked (fill_maps obj layout.map_table (replicate layout.map_cnt empty_map)))
        store maps (map_skeletons filled)
        create_progs obj s maps

    unfoldable pub create_skeleton : (obj : Ptr) → Skeletons ℤ
    create_skeleton obj = do
      s ← calloc (object_skeleton empty_skeleton)
      if s == 0 then give_up s (neg enomem) else create_maps obj s

  unfoldable pub destroy : Ptr → Skeletons (Unit {0})
  destroy obj = if obj == 0 then pure tt else do
    skeleton ← skeleton_of obj
    if not (skeleton == 0) then run (lib.destroy_skeleton skeleton) else pure tt
    free obj

  -- err_out:
  unfoldable pub open_failed : (obj : Ptr) → (err : ℤ) → Skeletons Ptr
  open_failed obj err = do destroy obj; set_errno (neg err); pure 0

  unfoldable pub open_opts : Layout → (opts : Ptr) → Skeletons Ptr
  open_opts layout opts = do
    obj ← calloc (bpf 0 λ _. 0)
    if obj == 0 then (do set_errno enomem; pure 0) else do
      err ← create_skeleton layout obj
      if not (is_zero err) then open_failed obj err else do
        skeleton ← skeleton_of obj
        err ← call (lib.open_skeleton skeleton opts)
        if not (is_zero err) then open_failed obj err else pure obj

  unfoldable pub open_bpf : Layout → Skeletons Ptr
  open_bpf layout = open_opts layout 0

  unfoldable pub load : Ptr → Skeletons ℤ
  load obj = do skeleton ← skeleton_of obj; call (lib.load_skeleton skeleton)

  unfoldable pub open_and_load : Layout → Skeletons Ptr
  open_and_load layout = do
    obj ← open_bpf layout
    if obj == 0
        then pure 0
        else do err ← load obj; if not (is_zero err) then open_failed obj err else pure obj

  unfoldable pub attach : Ptr → Skeletons ℤ
  attach obj = do skeleton ← skeleton_of obj; call (lib.attach_skeleton skeleton)

  unfoldable pub detach : Ptr → Skeletons (Unit {0})
  detach obj = do skeleton ← skeleton_of obj; run (lib.detach_skeleton skeleton)
