-- ===== src/SkipList/Dumps.antt =====
-- skipList/include/skipList.h: dump_file and load_file. The archives of boost are parameters.
use kv_my.Common.{ℕ, zero, suc, List, [], ◌∷◌, ◌++◌, Option, none, some, ◌==◌, if◌then◌else◌}
use kv_my.Common.Bytes.{Bytes}
use kv_my.SkipList.State.{
  KeyOrder, Ptr, null, Heap, SkipList, Run, ok, fault, out_of_fuel, ◌>>=◌, load, forward_at,
  set_forward, locked,
}
use kv_my.SkipList.Operations.{insert_element}

pub record Dump (K V : Type 0) : Type 0 where
  pub key_dump : List K
  pub val_dump : List V

pub record DumpCodec (K V : Type 0) : Type 0 where
  pub write_dump : Dump K V → Bytes
  pub read_dump : Bytes → Option (Dump K V)

module _ {K V : Type 0} where
  -- The keys and values along level 0 from `node`.
  unfoldable pub dump_loop : ℕ → Heap K V → Ptr → List K → List V → Run (Dump K V)
  dump_loop zero h node ks vs = out_of_fuel
  dump_loop (suc f) h node ks vs =
      let rest : Run (Dump K V) = (do
        n ← load h node
        after ← forward_at h node 0
        dump_loop f h after (ks ++ n.key ∷ []) (vs ++ n.value ∷ [])) in
      if node == null then ok (record { key_dump = ks; val_dump = vs }) else rest

  unfoldable pub dump_file : DumpCodec K V → SkipList K V → Run (Bytes × SkipList K V)
  dump_file codec = locked λ s. do
    node ← forward_at s.heap s.header 0
    dumper ← dump_loop (suc s.element_count) s.heap node [] []
    ok (codec.write_dump dumper, s)

  -- The header's pointers at `n` levels from `i` become null.
  unfoldable pub reset : ℕ → ℕ → Ptr → Heap K V → Run (Heap K V)
  reset zero i header h = ok h
  reset (suc n) i header h = do h' ← set_forward h header i null; reset n (suc i) header h'

  module _ ⦃order : KeyOrder K⦄ where
    -- The loop of `load_file` over the keys, with the values that are left.
    unfoldable pub load_loop : List K → List V → SkipList K V → Run (Unit {0} × SkipList K V)
    load_loop [] vs s = ok (tt, s)
    load_loop (k ∷ ks) [] s = fault
    load_loop (k ∷ ks) (v ∷ vs) s = do (done, s') ← insert_element k v s; load_loop ks vs s'

    unfoldable pub load_dump : Option (Dump K V) → SkipList K V → Run (Unit {0} × SkipList K V)
    load_dump none s = ok (tt, s)
    load_dump (some dumper) s = load_loop dumper.key_dump dumper.val_dump s

    unfoldable pub load_body : DumpCodec K V → Bytes → SkipList K V → Run (Unit {0} × SkipList K V)
    load_body codec bytes s = do
      heap ← reset (suc s.skip_list_level) 0 s.header s.heap
      load_dump (codec.read_dump bytes)
          (record s { skip_list_level = 0; element_count = 0; heap = heap })

    unfoldable pub load_file : DumpCodec K V → Bytes → SkipList K V → Run (Unit {0} × SkipList K V)
    load_file codec [] s = ok (tt, s)
    load_file codec (b ∷ bytes) s = locked (load_body codec (b ∷ bytes)) s
