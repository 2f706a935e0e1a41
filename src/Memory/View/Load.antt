-- ===== src/Memory/View/Load.antt =====
-- A page that comes into the frame chosen for it: it has the bytes that it had, and so have the
-- other pages.
use geck.Prelude.{
  ℕ, ◌≡◌, ◌≢◌, inl, inr, refl, sym, ap, ◌∙◌, subst, ℤ, pos, List, true, false, some, length,
  length-set, get_elem?, get_elem?-lt, get_elem?-set_self, get_elem?-set_ne, set, eqb_ℤ, eqb_ℤ_iff,
  eqb_ℤ_ne, Bool-cases,
}
use native.Mathlib.Decide.{ℕ_discrete}
use geck.Memory.{MemoryConfig, PageRow, ClockRow, Memory, set_struct_clock}
use geck.Memory.Store.{read_page_swap, read_frame, write_frame}
use geck.Memory.Store.Slices.{read-write_frame}
use geck.Memory.Store.Frames.{length-write_frame, read-write_frame_ne}
use geck.Memory.Clock.{put_page, add_page_to_clock_structure}
use geck.Memory.Handlers.{loaded, load_page}
use geck.Memory.Handlers.PageFault.{set_bit_lem}
use geck.Memory.View.{contents, Owners, HasOwner, IsPage, IsEntry, HasClock, IsStore}
use geck.Memory.View.Change.{Stays, Changes, same_row, some_same, contents-Changes, IsPages-Changes}
use geck.Memory.View.Clocks.{IsEntry-Changes, HasClock-Changes}
use geck.Memory.View.Choose.{Chosen}
use geck.Memory.View.PutPage.{put_page_entries, put_page-Distinct, length-put_page}

module _ (c : MemoryConfig) (s : Memory) (g : Owners) (pid : ℤ) (k : Chosen c s g pid) (page : ℕ)
    (o : g.owner page ≡ some pid) (row : PageRow) (row_in : get_elem? k.after.rows page ≡ some row)
    (absent : row.presence ≡ false) (v bytes : List ℕ)
    (fetched : read_page_swap c row.swap_position k.after ≡ some v) (full : length v ≡ c.tam_pagina)
    (written : write_frame c (pos k.frame) v k.after
      ≡ some (record k.after { principal_memory = bytes })) where
  abbrev frames : List ClockRow
  frames = put_page (pos k.frame) page row.swap_position k.clock.frames_in_memory

  -- The state with the page in the frame.
  abbrev pub filled : Memory
  filled =
      set_struct_clock pid (record k.clock { frames_in_memory = frames })
        (record k.after {
          principal_memory = bytes;
          bitmap_memory = set k.after.bitmap_memory k.frame true;
          rows = set k.after.rows page (loaded (pos k.frame) row);
        })

  pub load_page-filled : load_page c pid page (pos k.frame) k.after ≡ some filled
  unfolding load_page add_page_to_clock_structure
  load_page-filled =
      rw (
        row_in,
        fetched,
        written,
        set_bit_lem k.after.bitmap_memory k.frame k.frame_in.0,
        k.clock_in,
      )

  pub row_out : get_elem? filled.rows page ≡ some (loaded (pos k.frame) row)
  unfolding set_struct_clock
  row_out = get_elem?-set_self k.after.rows page _ (get_elem?-lt k.after.rows page row row_in)

  frame_out : read_frame c (pos k.frame) filled ≡ some v
  unfolding set_struct_clock read_frame
  frame_out =
      read-write_frame c (pos k.frame) v k.after (record k.after { principal_memory = bytes }) full
        written

  swap_out : (position : ℤ) → read_page_swap c position filled ≡ read_page_swap c position k.after
  unfolding set_struct_clock read_page_swap
  swap_out position = refl

  load-Stays :
      (p : ℕ) (a : PageRow)
      → HasOwner g p
      → p ≢ page
      → get_elem? k.after.rows p ≡ some a
      → Stays c k.after filled p a
  unfolding set_struct_clock
  load-Stays p a po other e =
      let x = k.mapped.pages p po in
      let same : x.row ≡ a = same_row k.after.rows p x.row a x.row_in e in
      record {
        used = a.use_bit;
        row_in = get_elem?-set_ne k.after.rows page p _ (λ z. other (sym z)) ∙ e;
        swap_same = swap_out a.swap_position;
        frame_same = elim x.place [
          | inl gone ↦ inl (ap (λ (y : PageRow). y.presence) (sym same) ∙ gone)
          | inr (f, r) ↦
              let present = ap (λ (y : PageRow). y.presence) (sym same) ∙ r.present in
              let at : a.frame_number ≡ pos f =
                ap (λ (y : PageRow). y.frame_number) (sym same) ∙ r.frame_eq in
              let apart : (m : ℕ) → a.frame_number ≡ pos m → k.frame ≢ m =
                λ m here z. k.unused p a po e present (here ∙ ap pos (sym z)) in
              inr (
                ap (λ z. read_frame c z filled) at
                    ∙ read-write_frame_ne c k.frame v k.after bytes f filled full written refl
                        (apart f at)
                    ∙ ap (λ z. read_frame c z k.after) (sym at),
                λ m here. get_elem?-set_ne k.after.bitmap_memory k.frame m true (apart m here),
              )
        ];
      }

  filled-IsPage : IsPage c filled page
  unfolding set_struct_clock
  filled-IsPage =
      let x = k.mapped.pages page (pid, o) in
      let same : x.row ≡ row = same_row k.after.rows page x.row row x.row_in row_in in
      record {
        row = loaded (pos k.frame) row;
        position = x.position;
        row_in = row_out;
        position_eq = ap (λ (y : PageRow). y.swap_position) (sym same) ∙ x.position_eq;
        position_in = x.position_in;
        swap_bit = x.swap_bit;
        place = inr (
          k.frame,
          record {
            present = refl;
            frame_eq = refl;
            bit = get_elem?-set_self k.after.bitmap_memory k.frame true k.frame_in.0;
            frame_in = rw (length-write_frame c k.frame v k.after bytes written) k.frame_in.1;
            coherent = inr (swap_out row.swap_position ∙ fetched ∙ sym frame_out);
          },
        );
      }

  load-Changes : Changes c g k.after filled page
  unfolding set_struct_clock
  load-Changes = record {
    stays = load-Stays;
    swap_bits = refl;
    swap_length = refl;
    memory_length = length-write_frame c k.frame v k.after bytes written;
    before = row;
    after = loaded (pos k.frame) row;
    before_in = row_in;
    after_in = row_out;
    same_place = refl;
    page = filled-IsPage;
    fresh = inr (λ p a po other e present. k.unused p a po e present);
  }

  -- The page's bytes come from its place in the swap file.
  contents-loaded : contents c filled page ≡ contents c k.after page
  unfolding contents
  contents-loaded = rw (row_out, row_in, absent, frame_out, fetched) refl

  pub contents-load : (p : ℕ) → HasOwner g p → contents c filled p ≡ contents c s p
  contents-load p po = elim (ℕ_discrete p page) [
    | yes same ↦ rw same contents-loaded ∙ k.contents_same p po
    | no other ↦
        contents-Changes c g k.after filled page load-Changes k.mapped p po other
        ∙ k.contents_same p po
  ]

  filled-IsEntry :
      (i : ℕ) (entry : ClockRow) → get_elem? frames i ≡ some entry → IsEntry filled g pid entry
  filled-IsEntry i entry e =
      elim ((put_page_entries c k.frame page row.swap_position k.clock.frames_in_memory
          k.distinct).1
        i entry e) [
          | inl (at, new) ↦ subst (IsEntry filled g pid) (sym new) (record {
            owned = o;
            row = loaded (pos k.frame) row;
            row_in = row_out;
            present = refl;
            frame_eq = refl;
          })
          | inr (old, ne) ↦
              let x = k.entries i entry old ne in
              IsEntry-Changes c g k.after filled page pid entry load-Changes x (λ here. cc (
                sym absent
                ∙ ap (λ (y : PageRow). y.presence)
                    (same_row k.after.rows page row x.row row_in
                      (subst (λ q. get_elem? k.after.rows q ≡ some x.row) here x.row_in))
                ∙ x.present))
        ]

  filled-HasClock : HasClock c filled g pid
  unfolding set_struct_clock
  filled-HasClock = record {
    clock = record k.clock { frames_in_memory = frames };
    clock_in = rw ((eqb_ℤ_iff pid pid).1 refl) refl;
    within = length-put_page c k.frame page row.swap_position k.clock.frames_in_memory k.room;
    pointer_in = k.pointer_in;
    entries = filled-IsEntry;
    distinct =
        put_page-Distinct c k.frame page row.swap_position k.clock.frames_in_memory k.distinct;
  }

  other-HasClock :
      (other : ℤ) → other ≢ pid → HasClock c k.after g other → HasClock c filled g other
  unfolding set_struct_clock
  other-HasClock other ne h =
      HasClock-Changes c g k.after filled page other load-Changes h
        (rw (eqb_ℤ_ne pid other (λ e. ne (sym e))) refl) (λ e. ne (some_same (sym e ∙ o)))

  filled-clocks :
      ((other : ℤ) → g.active other ≡ true → HasClock c s g other)
      → (other : ℤ) → g.active other ≡ true
      → HasClock c filled g other
  filled-clocks clocks other active = elim (Bool-cases (eqb_ℤ other pid)) [
    | inl t ↦ subst (HasClock c filled g) (sym ((eqb_ℤ_iff other pid).0 t)) filled-HasClock
    | inr f ↦
        let ne : other ≢ pid = λ e. cc (sym f ∙ (eqb_ℤ_iff other pid).1 e) in
        other-HasClock other ne (k.others other ne (clocks other active))
  ]

  -- The state is a store again.
  pub filled-IsStore : IsStore c s g → IsStore c filled g
  unfolding set_struct_clock
  filled-IsStore w = record {
    sized =
        rw
          (
            length-set k.after.bitmap_memory k.frame true,
            k.bits_length,
            length-write_frame c k.frame v k.after bytes written,
            k.memory_length,
          )
          w.sized;
    swap_sized = rw (k.swap_bits, k.swap_length) w.swap_sized;
    small = w.small;
    mapped = IsPages-Changes c g k.after filled page load-Changes k.mapped;
    clocks = filled-clocks w.clocks;
  }
