-- ===== src/SkipList/Refines/Load.antt =====
-- skipList/include/skipList.h, lines 219 to 244: what `load_file` ends in.
use kv_my.Common.{
  ℕ, zero, suc, ◌+◌, ◌≤◌, ◌≡◌, ◌≢◌, refl, ap, ◌∙◌, List, [], ◌∷◌, Option, true, false, some, none,
  arith,
}
use kv_my.Common.Bytes.{Bytes}
use kv_my.SkipList.State.{
  KeyOrder, Ptr, null, Heap, SkipList, ok, deadlock, locked, write, set_forward,
}
use kv_my.SkipList.Operations.{insert_element}
use kv_my.SkipList.Dumps.{Dump, DumpCodec, reset, load_loop, load_dump, load_body, load_file}
use kv_my.SkipList.Shape.{Cell, first, any_on, node_of, node_of-ext, put}
use kv_my.SkipList.Relinks.{set_forward-node, write_self}
use kv_my.SkipList.Splices.{fill}
use kv_my.SkipList.Invariant.{nowhere, IsShape, IsSkipList}
use kv_my.SkipList.Linking.{any_on-none}
use kv_my.SkipList.Refines.Splits.{locked-ok, mtx-IsShape}

module _ {K V : Type 0} where
  reset-round :
      (n i : ℕ) (p : Ptr) (h h' : Heap K V)
      → set_forward h p i null ≡ ok h'
      → reset (suc n) i p h ≡ reset n (suc i) p h'
  reset-round n i p h h' e = unfold reset in rw e

  -- The header leads nowhere at the levels that are reset.
  reset_lem :
      (n i : ℕ) (c : Cell K V) (f : ℕ → Ptr) (h : Heap K V)
      → null ≢ c.at
      → h c.at ≡ some (node_of c f)
      → i + n ≤ suc c.level
      → (h' : Heap K V) × (reset n i c.at h ≡ ok h')
        × (h' c.at ≡ some (node_of c (fill i n nowhere f)))
  reset_lem zero i c f h ne node high = (
    h,
    unfold reset in refl,
    node ∙ ap some (node_of-ext c f (fill i zero nowhere f) (λ j le. ground arith)),
  )
  reset_lem (suc n) i c f h ne node high =
      let h1 = write h c.at (some (node_of c (put f i null))) in
      let (h', done, is) =
        reset_lem n (suc i) c (put f i null) h1 ne (write_self h c.at (node_of c (put f i null)))
          (omega arith) in
      (
        h',
        reset-round n i c.at h h1 (set_forward-node h c f i null ne node (omega arith)) ∙ done,
        is
            ∙ ap some (
                node_of-ext c (fill (suc i) n nowhere (put f i null)) (fill i (suc n) nowhere f)
                  (λ j le. ground arith)),
      )

  first-high : (cs : List (Cell K V)) (i : ℕ) → any_on i cs ≡ false → first cs nowhere i ≡ null
  first-high [] i off = refl
  first-high (c ∷ cs) i off = ground (arith, first-high cs i)

  module _ ⦃order : KeyOrder K⦄ where
    -- An insertion under the mutex waits for itself.
    insert_element-held :
        (k : K) (v : V) (s : SkipList K V) → s.mtx ≡ true → insert_element k v s ≡ deadlock
    insert_element-held k v s held = unfold insert_element locked in rw held

    -- The state of a list once `load_file` has cleared it.
    abbrev cleared : SkipList K V → Heap K V → SkipList K V
    cleared s h = record s { skip_list_level = 0; element_count = 0; heap = h }

    module _ {s : SkipList K V} {header : Cell K V} {cs : List (Cell K V)}
        (is : IsShape s header cs) where
      cleared-IsShape :
          (h : Heap K V)
          → h header.at ≡ some (node_of header nowhere)
          → IsShape (cleared s h) header []
      cleared-IsShape h node = record {
        links = (is.links.0, node, tt, tt);
        at_header = is.at_header;
        top = is.top;
        sorted = tt;
        low = tt;
        tight = λ pos. absurd (omega arith);
        within = omega arith;
        counted = refl;
        allocated = (is.allocated.0, tt);
      }

      reset_all :
          (h : Heap K V) × (reset (suc s.skip_list_level) 0 s.header s.heap ≡ ok h)
          × (h header.at ≡ some (node_of header nowhere))
      reset_all =
          let (h, done, node) =
            reset_lem (suc s.skip_list_level) 0 header (first cs nowhere) s.heap is.links.0
              is.links.1 (omega (arith, is.within, is.top)) in
          (
            h,
            ap (λ p. reset (suc s.skip_list_level) 0 p s.heap) is.at_header ∙ done,
            node
                ∙ ap some (
                    node_of-ext header (fill 0 (suc s.skip_list_level) nowhere (first cs nowhere))
                      nowhere
                      (λ j le.
                        ground
                          (arith, any_on-none s.skip_list_level j cs is.low, first-high cs j))),
          )

    -- What a load reads: nothing or an entry to insert.
    abbrev pub IsEmptyDump : Option (Dump K V) → Type 0
    IsEmptyDump none = Unit {0}
    IsEmptyDump (some dumper) = dumper.key_dump ≡ []

    load_dump-empty :
        (o : Option (Dump K V)) (s : SkipList K V) → IsEmptyDump o → load_dump o s ≡ ok (tt, s)
    load_dump-empty none s e = unfold load_dump in refl
    load_dump-empty (some dumper) s e = unfold load_dump load_loop in rw e

    load_dump-entry :
        (dumper : Dump K V) (k : K) (ks : List K) (v : V) (vs : List V) (s : SkipList K V)
        → dumper.key_dump ≡ k ∷ ks
        → dumper.val_dump ≡ v ∷ vs
        → s.mtx ≡ true
        → load_dump (some dumper) s ≡ deadlock
    load_dump-entry dumper k ks v vs s ek ev held =
        unfold load_dump load_loop in rw (ek, ev, insert_element-held k v s held)

    module _ (codec : DumpCodec K V) (b : ℕ) (bytes : Bytes) {s : SkipList K V} {header : Cell K V}
        {cs : List (Cell K V)} (is : IsSkipList s header cs) where
      -- On a well-formed list, load_file of a text that is not empty, and that Boost cannot read or that
      -- holds no key, returns and leaves a well-formed list without elements.
      pub load_file-empty :
          IsEmptyDump (codec.read_dump (b ∷ bytes))
          → (s' : SkipList K V) × (load_file codec (b ∷ bytes) s ≡ ok (tt, s'))
            × IsSkipList s' header []
      load_file-empty e =
          let (h, done, node) = reset_all (mtx-IsShape true is.shape) in
          let s1 = cleared (record s { mtx = true }) h in
          (
            record s1 { mtx = false },
            unfold load_file in
                locked-ok (load_body codec (b ∷ bytes)) s tt s1 is.unlocked (
                  unfold load_body in
                  rw (done, load_dump-empty (codec.read_dump (b ∷ bytes)) s1 e)),
            record {
              shape = mtx-IsShape false (cleared-IsShape (mtx-IsShape true is.shape) h node);
              unlocked = refl;
            },
          )

      -- On a well-formed list, load_file of a dump with at least one key and value never returns: it
      -- holds the mutex while it calls insert_element, which waits for the same mutex.
      pub load_file-deadlock :
          (dumper : Dump K V) (k : K) (ks : List K) (v : V) (vs : List V)
          → codec.read_dump (b ∷ bytes) ≡ some dumper
          → dumper.key_dump ≡ k ∷ ks
          → dumper.val_dump ≡ v ∷ vs
          → load_file codec (b ∷ bytes) s ≡ deadlock
      load_file-deadlock dumper k ks v vs read ek ev =
          let (h, done, node) = reset_all (mtx-IsShape true is.shape) in
          let s1 = cleared (record s { mtx = true }) h in
          unfold load_file locked load_body in
          rw (is.unlocked, done, read, load_dump-entry dumper k ks v vs s1 ek ev refl)
