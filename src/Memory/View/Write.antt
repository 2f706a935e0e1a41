-- ===== src/Memory/View/Write.antt =====
-- MOV_OUT, as the pages see it: a word of one page changes.
use geck.Prelude.{
  ℕ, ◌+◌, ◌*◌, ◌/◌, ◌%◌, ◌≤◌, ◌<◌, ◌≡◌, ◌≢◌, ◌⊎◌, inl, inr, refl, sym, ap, ◌∙◌, subst, ℤ, pos, List,
  [], ◌∷◌, true, some, length, get_elem?, get_elem?-lt, get_elem?-set_self, get_elem?-set_ne, set,
  All, All_get, if◌then◌else◌, ◌>>=◌, >>=-eq-some, pos_same, eqb_ℤ, ◌&&◌, Bool-cases, arith,
}
use geck.Shared.Wire.{word_bytes}
use geck.Memory.{MemoryConfig, PageRow, PageTable, Memory}
use geck.Memory.Store.{read_page_swap, read_frame, write_slice, write_word}
use geck.Memory.Store.Slices.{read_slice_in_range, read-write_slice_ne, length-write_slice}
use geck.Memory.Store.Frames.{other_page}
use geck.Memory.Store.Splice.{read_slice-write_slice}
use geck.Memory.Tables.{get_page_table_by_index}
use geck.Memory.Access.{list_replace, find_loaded, save_value_in_memory}
use geck.Memory.Access.Marks.{Holds, find_loaded_lem}
use geck.Memory.View.{contents, Owners, HasOwner, IsPages, IsPage, IsResident, IsStore}
use geck.Memory.View.Change.{
  Stays, Changes, same_row, changed_part, contents-Changes, IsPages-Changes,
}
use geck.Memory.View.Clocks.{HasClock-kept}

-- A page of the table `segment_index`, whose pages are the process's, in the frame of the address.
pub record IsLoaded (c : MemoryConfig) (s : Memory) (g : Owners) (segment_index : ℤ) (page n : ℕ)
    : Type 0 where
  pub table : PageTable
  pub table_in : get_page_table_by_index segment_index s ≡ some table
  pub position : ℕ
  pub page_in : get_elem? table.pages_list position ≡ some page
  pub owned : All (HasOwner g) table.pages_list
  pub row : PageRow
  pub row_in : get_elem? s.rows page ≡ some row
  pub holds : Holds row (pos (n / c.tam_pagina))
  -- The word does not cross the end of the page.
  pub fits : n % c.tam_pagina + 4 ≤ c.tam_pagina

-- The offset and the frame of an address.
pub address_split : (n size : ℕ) → n / size * size + n % size ≡ n
address_split n size = omega arith

pages_in_range :
    (c : MemoryConfig) (s : Memory) (g : Owners)
    → IsPages c s g
    → (l : List ℕ) → All (HasOwner g) l
    → All (λ p. p < length s.rows) l
pages_in_range c s g w [] h = tt
pages_in_range c s g w (p ∷ l) h =
    let x = w.pages p h.0 in (get_elem?-lt s.rows p x.row x.row_in, pages_in_range c s g w l h.1)

-- What the search finds is in the list.
find_loaded-All :
    (P : ℕ → Type 0) (rows : List PageRow) (frame : ℤ) (l : List ℕ) (p : ℕ)
    → All P l
    → find_loaded rows frame l ≡ some p
    → P p
unfolding find_loaded
find_loaded-All P rows frame [] p h e = absurd (cc)
find_loaded-All P rows frame (x ∷ l) p h e =
    let (row, here, rest) = >>=-eq-some (get_elem? rows x) _ e in
    elim (Bool-cases (eqb_ℤ row.frame_number frame && row.presence)) [
      | inl t ↦ subst P (cc (rest, t)) h.0
      | inr f ↦
          find_loaded-All P rows frame l p h.1
            (subst (λ b. (if b then some x else find_loaded rows frame l) ≡ some p) f rest)
    ]

pub held-IsResident :
    (c : MemoryConfig) (s : Memory) (g : Owners)
    → IsStore c s g
    → (page frame : ℕ) (row : PageRow) → HasOwner g page
    → get_elem? s.rows page ≡ some row
    → Holds row (pos frame)
    → IsResident c s row frame
held-IsResident c s g w page frame row o e (here, present) =
    let x = w.mapped.pages page o in
    let same : x.row ≡ row = same_row s.rows page x.row row x.row_in e in
    elim x.place [
      | inl absent ↦ absurd (cc (absent, ap (λ (y : PageRow). y.presence) same, present))
      | inr (f, r) ↦
          let at : f ≡ frame =
            pos_same (sym r.frame_eq ∙ ap (λ (y : PageRow). y.frame_number) same ∙ here) in
          subst (λ z. IsResident c s z frame) same (subst (IsResident c s x.row) at r)
    ]

module _ (c : MemoryConfig) (s : Memory) (g : Owners) (w : IsStore c s g) (segment_index : ℤ)
    (page n : ℕ) (h : IsLoaded c s g segment_index page n) where
  abbrev frame : ℕ
  frame = n / c.tam_pagina

  pub owner : HasOwner g page
  owner = All_get (HasOwner g) h.table.pages_list h.position page h.owned h.page_in

  pub resident : IsResident c s h.row frame
  resident = held-IsResident c s g w page frame h.row owner h.row_in h.holds

  -- The page has a page's bytes.
  pub contents-IsLoaded :
      (part : List ℕ) × (contents c s page ≡ some part) × (length part ≡ c.tam_pagina)
  unfolding contents read_frame
  contents-IsLoaded =
      let (part, e, l) =
        read_slice_in_range s.principal_memory (frame * c.tam_pagina) c.tam_pagina
          resident.frame_in in
      (part, rw (h.row_in, h.holds.1, h.holds.0) e, l)

  -- The search of the table ends at the page.
  finds : find_loaded s.rows (pos frame) h.table.pages_list ≡ some page
  finds =
      let (p, r, found, p_in, holds) =
        find_loaded_lem s.rows (pos frame) h.table.pages_list h.position page h.row
          (pages_in_range c s g w.mapped h.table.pages_list h.owned) h.page_in h.row_in h.holds in
      let same : p ≡ page =
        w.mapped.frame_apart p page r h.row
          (find_loaded-All (HasOwner g) s.rows (pos frame) h.table.pages_list p h.owned found) owner
          p_in h.row_in holds.1 h.holds.1 (holds.0 ∙ sym h.holds.0) in
      found ∙ ap some same

  module _ (value : ℕ) (bytes : List ℕ)
      (written : write_slice s.principal_memory n (word_bytes value) ≡ some bytes) where
    -- The state with the word in it.
    abbrev pub stored : Memory
    stored = record s {
      principal_memory = bytes;
      rows = set s.rows page (record h.row { modified = true });
      all_page_tables = list_replace s.all_page_tables segment_index h.table;
    }

    pub save_value-stored : save_value_in_memory c (pos n) value segment_index s ≡ some stored
    unfolding save_value_in_memory write_word
    save_value-stored = rw (h.table_in, finds, h.row_in, written)

    row_out : get_elem? stored.rows page ≡ some (record h.row { modified = true })
    row_out = get_elem?-set_self s.rows page _ (get_elem?-lt s.rows page h.row h.row_in)

    apart_word :
        (f : ℕ) → f ≢ frame → (f * c.tam_pagina + c.tam_pagina ≤ n) ⊎ (n + 4 ≤ f * c.tam_pagina)
    apart_word f ne = elim (other_page c.tam_pagina frame f c.tam_pagina refl (λ e. ne (sym e))) [
      | inl below ↦ inl (omega (arith, below, address_split n c.tam_pagina))
      | inr above ↦ inr (omega (arith, above, address_split n c.tam_pagina, h.fits))
    ]

    -- Another frame.
    frame_kept : (f : ℕ) → f ≢ frame → read_frame c (pos f) stored ≡ read_frame c (pos f) s
    unfolding read_frame
    frame_kept f ne =
        read-write_slice_ne s.principal_memory n (word_bytes value) bytes (f * c.tam_pagina)
          c.tam_pagina written (apart_word f ne)

    swap_kept : (position : ℤ) → read_page_swap c position stored ≡ read_page_swap c position s
    unfolding read_page_swap
    swap_kept position = refl

    store-Stays :
        (p : ℕ) (a : PageRow)
        → HasOwner g p
        → p ≢ page
        → get_elem? s.rows p ≡ some a
        → Stays c s stored p a
    store-Stays p a o other e =
        let x = w.mapped.pages p o in
        let same : x.row ≡ a = same_row s.rows p x.row a x.row_in e in
        record {
          used = a.use_bit;
          row_in = get_elem?-set_ne s.rows page p _ (λ z. other (sym z)) ∙ e;
          swap_same = swap_kept a.swap_position;
          frame_same = elim x.place [
            | inl gone ↦ inl (ap (λ (y : PageRow). y.presence) (sym same) ∙ gone)
            | inr (f, r) ↦
                let present = ap (λ (y : PageRow). y.presence) (sym same) ∙ r.present in
                let at : a.frame_number ≡ pos f =
                  ap (λ (y : PageRow). y.frame_number) (sym same) ∙ r.frame_eq in
                inr (
                  ap (λ z. read_frame c z stored) at
                      ∙ frame_kept f (λ z. other (
                          w.mapped.frame_apart p page a h.row o owner e h.row_in present h.holds.1
                            (at ∙ ap pos z ∙ sym h.holds.0)))
                      ∙ ap (λ z. read_frame c z s) (sym at),
                  λ m here. refl,
                )
          ];
        }

    stored-IsPage : IsPage c stored page
    stored-IsPage =
        let x = w.mapped.pages page owner in
        let same : x.row ≡ h.row = same_row s.rows page x.row h.row x.row_in h.row_in in
        record {
          row = record h.row { modified = true };
          position = x.position;
          row_in = row_out;
          position_eq = ap (λ (y : PageRow). y.swap_position) (sym same) ∙ x.position_eq;
          position_in = x.position_in;
          swap_bit = x.swap_bit;
          place = inr (
            frame,
            record {
              present = h.holds.1;
              frame_eq = h.holds.0;
              bit = resident.bit;
              frame_in =
                  rw (length-write_slice s.principal_memory n (word_bytes value) bytes written)
                    resident.frame_in;
              coherent = inl refl;
            },
          );
        }

    store-Changes : Changes c g s stored page
    store-Changes = record {
      stays = store-Stays;
      swap_bits = refl;
      swap_length = refl;
      memory_length = length-write_slice s.principal_memory n (word_bytes value) bytes written;
      before = h.row;
      after = record h.row { modified = true };
      before_in = h.row_in;
      after_in = row_out;
      same_place = refl;
      page = stored-IsPage;
      fresh = inr (λ p a o other e present same.
          other (w.mapped.frame_apart p page a h.row o owner e h.row_in present h.holds.1 same));
    }

    pub stored-IsStore : IsStore c stored g
    stored-IsStore = record {
      sized = rw (length-write_slice s.principal_memory n (word_bytes value) bytes written) w.sized;
      swap_sized = w.swap_sized;
      small = w.small;
      mapped = IsPages-Changes c g s stored page store-Changes w.mapped;
      clocks = λ pid active.
          HasClock-kept c g s stored page pid store-Changes (w.clocks pid active) refl
            (kept (λ r. r.presence) refl) (kept (λ r. r.frame_number) refl);
    }
      where
        kept :
            {A : Type 0} (part : PageRow → A)
            → part (record h.row { modified = true }) ≡ part h.row
            → part store-Changes.after ≡ part store-Changes.before
        kept part same =
            changed_part c g s stored page store-Changes part h.row _ h.row_in row_out same

    pub contents-stored_other :
        (p : ℕ) → HasOwner g p → p ≢ page → contents c stored p ≡ contents c s p
    contents-stored_other = contents-Changes c g s stored page store-Changes w.mapped

    pub contents-stored :
        contents c stored page
        ≡ (contents c s page >>= λ part. write_slice part (n % c.tam_pagina) (word_bytes value))
    unfolding contents read_frame
    contents-stored =
        rw (row_out, h.row_in, h.holds.1, h.holds.0)
          (read_slice-write_slice s.principal_memory (frame * c.tam_pagina) (n % c.tam_pagina)
            c.tam_pagina (word_bytes value) bytes h.fits resident.frame_in
            (rw (address_split n c.tam_pagina) written))
