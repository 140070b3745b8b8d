-- ===== src/SkipList/Refines/Dump.antt =====
-- skipList/include/skipList.h, lines 201 to 217 and 339 to 349: a list is made and dumped.
use mathlib.Core.List.{append_assoc, append-nil}
use kv_my.Common.{
  ℕ, zero, suc, ◌<◌, ◌≡◌, refl, ap, ◌∙◌, List, [], ◌∷◌, ◌++◌, true, false, some, map, arith, length,
  leb, ◌==◌,
}
use kv_my.SkipList.State.{KeyOrder, null, Heap, SkipList, ok, create_node, forward_at}
use kv_my.SkipList.Operations.{init}
use kv_my.SkipList.Dumps.{Dump, DumpCodec, dump_loop, dump_file}
use kv_my.SkipList.Shape.{Cell, Links, first, node_of, replicate-tabulate}
use kv_my.SkipList.Walks.{load-some, forward_at-Links}
use kv_my.SkipList.Invariant.{nowhere, IsSkipList}
use kv_my.SkipList.Refines.Splits.{locked-ok, restored}

module _ {K V : Type 0} where
  abbrev pub keys : List (Cell K V) → List K
  keys = map (λ c. c.key)

  abbrev pub values : List (Cell K V) → List V
  values = map (λ c. c.value)

  dump_loop_lem :
      (f : ℕ) (h : Heap K V) (cs : List (Cell K V)) (ks : List K) (vs : List V)
      → Links h cs nowhere
      → length cs < f
      → dump_loop f h (first cs nowhere 0) ks vs
        ≡ ok (record { key_dump = ks ++ keys cs; val_dump = vs ++ values cs })
  unfolding dump_loop
  dump_loop_lem zero h cs ks vs l fuel = absurd (omega arith)
  dump_loop_lem (suc f) h [] ks vs l fuel = rw (append-nil, append-nil)
  dump_loop_lem (suc f) h (c ∷ cs) ks vs l fuel =
      let off : (c.at == null) ≡ false = ground arith in
      let low : leb 0 c.level ≡ true = ground arith in
      rw
        (
          low,
          off,
          load-some h c.at (node_of c (first cs nowhere)) l.0 l.1,
          forward_at-Links h c cs nowhere 0 l (omega arith),
        )
        (dump_loop_lem f h cs (ks ++ c.key ∷ []) (vs ++ c.value ∷ []) l.3 (omega arith)
          ∙ ap (λ (d : Dump K V). ok d) (shifted c cs ks vs))
    where
      shifted :
          (c : Cell K V) (cs : List (Cell K V)) (ks : List K) (vs : List V)
          → ◌≡◌ {A = Dump K V}
              (record {
                key_dump = (ks ++ c.key ∷ []) ++ keys cs;
                val_dump = (vs ++ c.value ∷ []) ++ values cs;
              })
              (record { key_dump = ks ++ keys (c ∷ cs); val_dump = vs ++ values (c ∷ cs) })
      shifted c cs ks vs =
          rw (append_assoc ks (c.key ∷ []) (keys cs), append_assoc vs (c.value ∷ []) (values cs))

  module _ ⦃order : KeyOrder K⦄ where
    -- A list that is made holds nothing, whatever its header's key and value are.
    pub init-IsSkipList :
        (k : K) (v : V) (max_level : ℕ) (rands : List ℕ)
        → IsSkipList
            (init k v max_level rands)
            (record { at = 1; key = k; value = v; level = max_level })
            []
    unfolding init
    init-IsSkipList k v max_level rands = record {
      shape = record {
        links = (omega arith, made, tt, tt);
        at_header = refl;
        top = refl;
        sorted = tt;
        low = tt;
        tight = λ pos. absurd (omega arith);
        within = omega arith;
        counted = refl;
        allocated = (omega arith, tt);
      };
      unlocked = refl;
    }
      where
        made :
            (init k v max_level rands).heap 1
            ≡ some (node_of (record { at = 1; key = k; value = v; level = max_level }) nowhere)
        made =
            unfold create_node in
            ap (λ f. some (record { key = k; value = v; node_level = max_level; forward = f }))
              (replicate-tabulate (suc max_level))

    -- On a well-formed list dump_file returns the archive of all keys, in their order, and of their
    -- values, and changes nothing.
    pub dump_file-refines :
        (codec : DumpCodec K V) {s : SkipList K V} {header : Cell K V} {cs : List (Cell K V)}
        → IsSkipList s header cs
        → dump_file codec s
          ≡ ok (codec.write_dump (record { key_dump = keys cs; val_dump = values cs }), s)
    dump_file-refines codec {s} {header} {cs} is =
        unfold dump_file in
        locked-ok _ s (codec.write_dump (record { key_dump = keys cs; val_dump = values cs }))
          (record s { mtx = true }) is.unlocked (rw (entered, looped))
        ∙ ap (λ s'. ok (codec.write_dump (record { key_dump = keys cs; val_dump = values cs }), s'))
            (restored s is.unlocked)
      where
        entered : forward_at s.heap s.header 0 ≡ ok (first cs nowhere 0)
        entered =
            ap (λ p. forward_at s.heap p 0) is.shape.at_header
            ∙ forward_at-Links s.heap header cs nowhere 0 is.shape.links (omega arith)

        looped :
            dump_loop (suc s.element_count) s.heap (first cs nowhere 0) [] []
            ≡ ok (record { key_dump = keys cs; val_dump = values cs })
        looped =
            dump_loop_lem (suc s.element_count) s.heap cs [] [] is.shape.links.3
              (omega (arith, is.shape.counted))
