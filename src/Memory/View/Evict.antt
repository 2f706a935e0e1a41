-- ===== src/Memory/View/Evict.antt =====
-- A replacement in a store: the victim leaves its frame, and no page's bytes change.
use geck.Prelude.{
  ℕ, ◌≡◌, ◌≢◌, inl, inr, refl, sym, ap, ◌∙◌, subst, ℤ, pos, Bool, true, false, Option, some, length,
  get_elem?, get_elem?_of_lt, get_elem?-set_ne, All_get, eqb_ℤ_ne, Bool-cases, pos_same,
}
use native.Mathlib.Decide.{ℕ_discrete}
use geck.Memory.{MemoryConfig, PageRow, ClockRow, Memory, set_struct_clock}
use geck.Memory.Store.{read_page_swap}
use geck.Memory.Clock.Victim.{Replaces}
use geck.Memory.View.{contents, Owners, HasOwner, IsPage, IsEntry, HasClock, IsStore}
use geck.Memory.View.Change.{Stays, Changes, some_same, same_row, read_frame_same, contents-Changes}
use geck.Memory.View.Clocks.{page_of, IsEntry-Changes, HasClock-Changes}

module _ (c : MemoryConfig) (s : Memory) (g : Owners) (w : IsStore c s g) (pid : ℤ)
    (h : HasClock c s g pid) (run : Option (ℤ × Memory)) (r : Replaces c pid s h.clock run) where
  abbrev victim : ℕ
  victim = r.entry.page

  abbrev old_row : PageRow
  old_row = record r.row { use_bit = r.sound.used_before }

  victim_owner : HasOwner g victim
  victim_owner = (pid, (h.entries r.index r.entry r.entry_in).owned)

  victim_present : r.row.presence ≡ true
  victim_present =
      let x = h.entries r.index r.entry r.entry_in in
      ap (λ (a : PageRow). a.presence)
        (same_row s.rows victim old_row x.row r.sound.origin x.row_in)
      ∙ x.present

  -- The search changes no more of a row than its use bit.
  scanned_row :
      (p : ℕ) (a : PageRow)
      → get_elem? s.rows p ≡ some a
      → (used : Bool) × (get_elem? r.rows p ≡ some (record a { use_bit = used }))
  scanned_row p a e = elim (page_of p h.clock.frames_in_memory) [
    | inr away ↦ (a.use_bit, r.scan.others p away ∙ e)
    | inl (i, x, x_in, same) ↦
        let (b, b_in) =
          get_elem?_of_lt r.rows x.page
            (All_get _ h.clock.frames_in_memory i x r.scan.pages_in x_in) in
        let sound = r.scan.sound i x b x_in b_in in
        let here : record b { use_bit = sound.used_before } ≡ a =
          same_row s.rows x.page _ a sound.origin
            (subst (λ q. get_elem? s.rows q ≡ some a) (sym same) e) in
        (
          b.use_bit,
          subst (λ q. get_elem? r.rows q ≡ some b) same b_in
              ∙ ap (λ (y : PageRow). some (record y { use_bit = b.use_bit })) here,
        )
  ]

  evict-Stays :
      (p : ℕ) (a : PageRow)
      → HasOwner g p
      → p ≢ victim
      → get_elem? s.rows p ≡ some a
      → Stays c s r.after p a
  unfolding set_struct_clock
  evict-Stays p a o other e =
      let (used, e') = scanned_row p a e in
      let x = w.mapped.pages p o in
      let here : x.row ≡ a = same_row s.rows p x.row a x.row_in e in
      let place : a.swap_position ≡ pos x.position =
        ap (λ (y : PageRow). y.swap_position) (sym here) ∙ x.position_eq in
      record {
        used = used;
        row_in =
            ap (λ (m : Memory). get_elem? m.rows p) r.state
            ∙ get_elem?-set_ne r.rows victim p _ (λ y. other (sym y))
            ∙ e';
        swap_same =
            ap (λ z. read_page_swap c z r.after) place
            ∙ r.evicted.swap_others x.position (λ y. other (
                w.mapped.swap_apart p victim a old_row o victim_owner e r.sound.origin
                  (place ∙ sym y)))
            ∙ ap (λ z. read_page_swap c z s) (sym place);
        frame_same = elim (Bool-cases a.presence) [
          | inr absent ↦ inl absent
          | inl present ↦ inr (
            read_frame_same c a.frame_number s r.after r.evicted.memory_kept,
            λ f y.
                ap (λ (m : Memory). get_elem? m.bitmap_memory f) r.state
                ∙ get_elem?-set_ne s.bitmap_memory r.sound.frame f false (λ z. other (
                    w.mapped.frame_apart p victim a old_row o victim_owner e r.sound.origin present
                      victim_present (y ∙ ap pos (sym z) ∙ sym r.sound.frame_eq))),
          )
        ];
      }

  pub swap_bits_kept : r.after.bitmap_swap ≡ s.bitmap_swap
  unfolding set_struct_clock
  swap_bits_kept = ap (λ (m : Memory). m.bitmap_swap) r.state

  victim-IsPage : IsPage c r.after victim
  victim-IsPage = record {
    row = record r.row { modified = false; presence = false };
    position = r.sound.position;
    row_in = r.evicted.row_out;
    position_eq = r.sound.position_eq;
    position_in = rw r.evicted.swap_length r.sound.position_in;
    swap_bit =
        let x = w.mapped.pages victim victim_owner in
        let same : x.position ≡ r.sound.position = pos_same (
          sym x.position_eq
          ∙ ap (λ (y : PageRow). y.swap_position)
              (same_row s.rows victim x.row old_row x.row_in r.sound.origin)
          ∙ r.sound.position_eq) in
        rw swap_bits_kept (subst (λ n. get_elem? s.bitmap_swap n ≡ some true) same x.swap_bit);
    place = inl refl;
  }

  pub evict-Changes : Changes c g s r.after victim
  evict-Changes = record {
    stays = evict-Stays;
    swap_bits = swap_bits_kept;
    swap_length = r.evicted.swap_length;
    memory_length = ap length r.evicted.memory_kept;
    before = old_row;
    after = record r.row { modified = false; presence = false };
    before_in = r.sound.origin;
    after_in = r.evicted.row_out;
    same_place = refl;
    page = victim-IsPage;
    fresh = inl refl;
  }

  -- The victim's bytes are those that its frame had.
  contents-victim : contents c r.after victim ≡ contents c s victim
  unfolding contents
  contents-victim =
      rw (r.evicted.row_out, r.sound.origin, victim_present, r.evicted.saved, r.sound.frame_eq) refl

  pub contents-evict : (p : ℕ) → HasOwner g p → contents c r.after p ≡ contents c s p
  contents-evict p o = elim (ℕ_discrete p victim) [
    | yes same ↦ rw same contents-victim
    | no other ↦ contents-Changes c g s r.after victim evict-Changes w.mapped p o other
  ]

  -- No page is in the victim's frame.
  pub evict_unused :
      (p : ℕ) (a : PageRow)
      → HasOwner g p
      → get_elem? r.after.rows p ≡ some a
      → a.presence ≡ true
      → a.frame_number ≢ pos r.sound.frame
  evict_unused p a o e present here = elim (ℕ_discrete p victim) [
    | yes same ↦
        let gone : a ≡ record r.row { modified = false; presence = false } =
          same_row r.after.rows victim a _ (subst (λ q. get_elem? r.after.rows q ≡ some a) same e)
            r.evicted.row_out in
        absurd (cc (present, ap (λ (y : PageRow). y.presence) gone))
    | no other ↦
        let x = w.mapped.pages p o in
        let st = evict-Stays p x.row o other x.row_in in
        let b : a ≡ record x.row { use_bit = st.used } = same_row r.after.rows p a _ e st.row_in in
        other (
          w.mapped.frame_apart p victim x.row old_row o victim_owner x.row_in r.sound.origin
            (ap (λ (y : PageRow). y.presence) (sym b) ∙ present) victim_present
            (ap (λ (y : PageRow). y.frame_number) (sym b) ∙ here ∙ sym r.sound.frame_eq))
  ]

  -- A page in no frame stays in none.
  pub evict_absent :
      (p : ℕ) (a : PageRow)
      → HasOwner g p
      → get_elem? s.rows p ≡ some a
      → a.presence ≡ false
      → (b : PageRow) × (get_elem? r.after.rows p ≡ some b) × (b.presence ≡ false)
  evict_absent p a o e absent = elim (ℕ_discrete p victim) [
    | yes same ↦
        (record r.row { modified = false; presence = false }, rw same r.evicted.row_out, refl)
    | no other ↦
        let st = evict-Stays p a o other e in (record a { use_bit = st.used }, st.row_in, absent)
  ]

  -- The clocks of the other processes.
  pub evict-HasClock : (other : ℤ) → other ≢ pid → HasClock c s g other → HasClock c r.after g other
  unfolding set_struct_clock
  evict-HasClock other ne k =
      HasClock-Changes c g s r.after victim other evict-Changes k
        (ap (λ (m : Memory). m.clock_structures other) r.state
          ∙ rw (eqb_ℤ_ne pid other (λ e. ne (sym e))) refl)
        (λ e. ne (some_same (sym e ∙ (h.entries r.index r.entry r.entry_in).owned)))

  pub evict-IsEntry :
      (i : ℕ) (entry : ClockRow)
      → get_elem? h.clock.frames_in_memory i ≡ some entry
      → entry.frame_number_in_memory ≢ pos r.sound.frame
      → IsEntry r.after g pid entry
  evict-IsEntry i entry e ne =
      IsEntry-Changes c g s r.after victim pid entry evict-Changes (h.entries i entry e) (λ here.
        ne (
          sym (h.entries i entry e).frame_eq
          ∙ ap (λ (y : PageRow). y.frame_number)
              (same_row s.rows victim (h.entries i entry e).row old_row
                (subst (λ q. get_elem? s.rows q ≡ some (h.entries i entry e).row) here
                  (h.entries i entry e).row_in)
                r.sound.origin)
          ∙ r.sound.frame_eq))
