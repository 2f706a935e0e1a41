-- ===== src/Memory/View/Read.antt =====
-- MOV_IN, as the pages see it: it answers with a word of the page and changes use bits.
use geck.Prelude.{
  ℕ, ◌+◌, ◌*◌, ◌/◌, ◌%◌, ◌≤◌, ◌≡◌, inl, inr, refl, sym, ap, ◌∙◌, subst, ℤ, pos, List, [], ◌∷◌, Bool,
  true, Option, some, length, list_get, get_elem?, get_elem?-lt, get_elem?-set_self,
  get_elem?-set_ne, set, ◌>>=◌, >>=-eq-some, >>=-assoc, IsU32, eqb_ℤ, Bool-cases, arith,
}
use native.Mathlib.Decide.{ℕ_discrete}
use geck.Shared.{Pcb, Segment}
use geck.Shared.Wire.{read_uint32, word_bytes}
use geck.Memory.{MemoryConfig, PageRow, PageTable, ClockRow, Memory}
use geck.Memory.Store.{
  read_page_swap, read_frame, read_slice, write_slice, read_value_in_principal_memory,
}
use geck.Memory.Store.Slices.{
  read_slice_in_range, write_slice_in_range, read-write_slice, read_uint32_bytes,
}
use geck.Memory.Store.Splice.{read_slice-read_slice}
use geck.Memory.Tables.{get_page_table_by_index, get_row}
use geck.Memory.Access.{mark_used, update_page_use}
use geck.Memory.Access.Marks.{Holds}
use geck.Memory.View.{contents, Owners, HasOwner, IsResident, HasClock, IsStore}
use geck.Memory.View.Change.{
  Stays, Changes, same_row, some_same, changed_part, contents-Stays, IsPages-Changes,
}
use geck.Memory.View.Clocks.{HasClock-kept}
use geck.Memory.View.Write.{address_split, held-IsResident}

-- A page of a living process, which its segment and its number name, in the frame of the address.
pub record IsReadable (c : MemoryConfig) (s : Memory) (g : Owners) (pcb : Pcb)
    (segment_number page_number : ℤ) (page n : ℕ) : Type 0 where
  pub segment : Segment
  pub table : PageTable
  pub row : PageRow
  pub segment_in : list_get pcb.segment_table segment_number ≡ some segment
  pub table_in : get_page_table_by_index segment.index_page s ≡ some table
  pub page_in : list_get table.pages_list page_number ≡ some page
  pub row_in : get_elem? s.rows page ≡ some row
  pub holds : Holds row (pos (n / c.tam_pagina))
  pub owned : g.owner page ≡ some pcb.process_id
  pub active : g.active pcb.process_id ≡ true
  -- The word does not cross the end of the page.
  pub fits : n % c.tam_pagina + 4 ≤ c.tam_pagina

abbrev first_word : List ℕ → Option ℕ
first_word bytes = read_uint32 bytes >>= λ r. some r.0

-- The word at an offset of a page.
abbrev pub word_at : ℕ → List ℕ → Option ℕ
word_at k part = read_slice part k 4 >>= first_word

-- A word that is written is the word there.
pub word_at-write_slice :
    (part : List ℕ) (k value : ℕ)
    → k + 4 ≤ length part
    → IsU32 value
    → (write_slice part k (word_bytes value) >>= word_at k) ≡ some value
word_at-write_slice part k value room small =
    let written = write_slice_in_range part k (word_bytes value) room in
    rw
      (written, read-write_slice part k (word_bytes value) _ written, read_uint32_bytes value small)
      refl

first_word-some : (bytes : List ℕ) → length bytes ≡ 4 → (w : ℕ) × (first_word bytes ≡ some w)
unfolding read_uint32
first_word-some (a ∷ b ∷ x ∷ y ∷ []) e = (_, refl)
first_word-some (a ∷ b ∷ x ∷ y ∷ z ∷ rest) e = absurd (omega arith)
first_word-some (a ∷ b ∷ x ∷ []) e = absurd (omega arith)
first_word-some (a ∷ b ∷ []) e = absurd (omega arith)
first_word-some (a ∷ []) e = absurd (omega arith)
first_word-some [] e = absurd (omega arith)

-- There is a word wherever four bytes are.
word_at-some : (part : List ℕ) (k : ℕ) → k + 4 ≤ length part → (w : ℕ) × (word_at k part ≡ some w)
word_at-some part k room =
    let (bytes, e, l) = read_slice_in_range part k 4 room in
    let (w, e') = first_word-some bytes l in (w, rw e e')

marked_row :
    (rows : List PageRow) (page p : ℕ) (row a : PageRow)
    → get_elem? rows page ≡ some row
    → get_elem? rows p ≡ some a
    → (used : Bool) × (get_elem? (set rows page (record row { use_bit = true })) p
        ≡ some (record a { use_bit = used }))
marked_row rows page p row a e e' = elim (ℕ_discrete page p) [
  | no other ↦ (a.use_bit, get_elem?-set_ne rows page p _ other ∙ e')
  | yes same ↦ (
    true,
    subst
          (λ q.
            get_elem? (set rows page (record row { use_bit = true })) q
            ≡ some (record row { use_bit = true }))
          same (get_elem?-set_self rows page _ (get_elem?-lt rows page row e))
        ∙ ap (λ (y : PageRow). some (record y { use_bit = true }))
            (same_row rows p row a (subst (λ q. get_elem? rows q ≡ some row) same e) e'),
  )
]

-- The marks change use bits only.
mark_used-row :
    (frame : ℤ) (frames : List ClockRow) (rows out : List PageRow) (p : ℕ) (a : PageRow)
    → mark_used frame frames rows ≡ some out
    → get_elem? rows p ≡ some a
    → (used : Bool) × (get_elem? out p ≡ some (record a { use_bit = used }))
unfolding mark_used
mark_used-row frame [] rows out p a e e' =
    (a.use_bit, ap (λ l. get_elem? l p) (sym (some_same e)) ∙ e')
mark_used-row frame (x ∷ frames) rows out p a e e' =
    elim (Bool-cases (eqb_ℤ frame x.frame_number_in_memory)) [
      | inr f ↦ mark_used-row frame frames rows out p a (rw f at e) e'
      | inl t ↦
          let (marked, put, rest) =
            >>=-eq-some
              (get_elem? rows x.page >>= λ row.
                some (set rows x.page (record row { use_bit = true })))
              (mark_used frame frames) (rw t at e) in
          let (row, row_in, shape) =
            >>=-eq-some (get_elem? rows x.page)
              (λ row. some (set rows x.page (record row { use_bit = true }))) put in
          let (used, e'') = marked_row rows x.page p row a row_in e' in
          mark_used-row frame frames marked out p (record a { use_bit = used }) rest
            (subst (λ l. get_elem? l p ≡ some (record a { use_bit = used })) (some_same shape) e'')
    ]

module _ (c : MemoryConfig) (s : Memory) (g : Owners) (w : IsStore c s g) (pcb : Pcb)
    (segment_number page_number : ℤ) (page n : ℕ)
    (h : IsReadable c s g pcb segment_number page_number page n) where
  abbrev frame : ℕ
  frame = n / c.tam_pagina

  owner : HasOwner g page
  owner = (pcb.process_id, h.owned)

  resident : IsResident c s h.row frame
  resident = held-IsResident c s g w page frame h.row owner h.row_in h.holds

  -- The page has a word at the offset of the address.
  pub word-IsReadable :
      (value : ℕ) × ((contents c s page >>= word_at (n % c.tam_pagina)) ≡ some value)
  unfolding contents read_frame
  word-IsReadable =
      let (part, e, l) =
        read_slice_in_range s.principal_memory (frame * c.tam_pagina) c.tam_pagina
          resident.frame_in in
      let (value, word) = word_at-some part (n % c.tam_pagina) (omega (arith, l, h.fits)) in
      (value, rw (h.row_in, h.holds.1, h.holds.0, e) word)

  module _ (rows : List PageRow) (clock : HasClock c s g pcb.process_id)
      (marks : mark_used h.row.frame_number clock.clock.frames_in_memory s.rows ≡ some rows) where
    -- The state with the marks.
    abbrev pub marked : Memory
    marked = record s { rows = rows }

    pub update_page_use-marked : update_page_use pcb segment_number page_number s ≡ some marked
    unfolding update_page_use get_row
    update_page_use-marked =
        rw (h.segment_in, h.table_in, h.page_in, h.row_in, clock.clock_in, marks)

    mark-Stays : (p : ℕ) (a : PageRow) → get_elem? s.rows p ≡ some a → Stays c s marked p a
    unfolding read_page_swap read_frame
    mark-Stays p a e =
        let (used, e') =
          mark_used-row h.row.frame_number clock.clock.frames_in_memory s.rows rows p a marks e in
        record {
          used = used;
          row_in = e';
          swap_same = refl;
          frame_same = inr (refl, λ f here. refl);
        }

    mark-Changes : Changes c g s marked page
    unfolding read_page_swap read_frame
    mark-Changes =
        let x = w.mapped.pages page owner in
        let st = mark-Stays page h.row h.row_in in
        record {
          stays = λ p a o other e. mark-Stays p a e;
          swap_bits = refl;
          swap_length = refl;
          memory_length = refl;
          before = h.row;
          after = record h.row { use_bit = st.used };
          before_in = h.row_in;
          after_in = st.row_in;
          same_place = refl;
          page = record {
            row = record h.row { use_bit = st.used };
            position = x.position;
            row_in = st.row_in;
            position_eq =
                ap (λ (y : PageRow). y.swap_position)
                  (same_row s.rows page h.row x.row h.row_in x.row_in)
                ∙ x.position_eq;
            position_in = x.position_in;
            swap_bit = x.swap_bit;
            place = inr (
              frame,
              record {
                present = resident.present;
                frame_eq = resident.frame_eq;
                bit = resident.bit;
                frame_in = resident.frame_in;
                coherent = resident.coherent;
              },
            );
          };
          fresh = inr (λ p a o other e present same.
              other
                (w.mapped.frame_apart p page a h.row o owner e h.row_in present h.holds.1 same));
        }

    pub marked-IsStore : IsStore c marked g
    marked-IsStore = record {
      sized = w.sized;
      swap_sized = w.swap_sized;
      small = w.small;
      mapped = IsPages-Changes c g s marked page mark-Changes w.mapped;
      clocks = λ pid active.
          HasClock-kept c g s marked page pid mark-Changes (w.clocks pid active) refl
            (kept (λ r. r.presence) refl) (kept (λ r. r.frame_number) refl);
    }
      where
        kept :
            {A : Type 0} (part : PageRow → A)
            → part (record h.row { use_bit = (mark-Stays page h.row h.row_in).used }) ≡ part h.row
            → part mark-Changes.after ≡ part mark-Changes.before
        kept part same =
            changed_part c g s marked page mark-Changes part h.row _ h.row_in
              (mark-Stays page h.row h.row_in).row_in same

    pub contents-marked : (p : ℕ) → HasOwner g p → contents c marked p ≡ contents c s p
    contents-marked p o =
        let x = w.mapped.pages p o in
        contents-Stays c g s marked page mark-Changes p x.row x.row_in (mark-Stays p x.row x.row_in)

    -- The word at the address is that of the page's bytes.
    pub read_value-marked :
        read_value_in_principal_memory (pos n) marked
        ≡ (contents c s page >>= word_at (n % c.tam_pagina))
    unfolding contents read_frame read_value_in_principal_memory
    read_value-marked =
        rw (h.row_in, h.holds.1, h.holds.0)
          (ap (λ o. o >>= first_word)
              (ap (λ a. read_slice s.principal_memory a 4) (sym (address_split n c.tam_pagina))
                ∙ sym (
                    read_slice-read_slice s.principal_memory (frame * c.tam_pagina)
                      (n % c.tam_pagina) 4 c.tam_pagina h.fits resident.frame_in))
            ∙ sym (
                >>=-assoc (read_slice s.principal_memory (frame * c.tam_pagina) c.tam_pagina)
                  (λ part. read_slice part (n % c.tam_pagina) 4) first_word))
