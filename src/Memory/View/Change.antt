-- ===== src/Memory/View/Change.antt =====
-- A change of one page: the others stay as they are but for their use bits.
use geck.Prelude.{
  ℕ, ◌≡◌, ◌≢◌, ◌⊎◌, inl, inr, refl, sym, ap, ◌∙◌, subst, ℤ, pos, List, Bool, true, false, some,
  length, get_elem?,
}
use native.Mathlib.Decide.{ℕ_discrete}
use geck.Memory.{MemoryConfig, PageRow, Memory}
use geck.Memory.Store.{read_page_swap, read_frame}
use geck.Memory.View.{contents, Owners, HasOwner, IsPage, IsPages}

-- What a step does to a page that it is not about.
pub record Stays (c : MemoryConfig) (s t : Memory) (p : ℕ) (a : PageRow) : Type 0 where
  pub used : Bool
  pub row_in : get_elem? t.rows p ≡ some (record a { use_bit = used })
  pub swap_same : read_page_swap c a.swap_position t ≡ read_page_swap c a.swap_position s
  pub frame_same :
      (a.presence ≡ false)
      ⊎ ((read_frame c a.frame_number t ≡ read_frame c a.frame_number s)
          × ((f : ℕ)
              → a.frame_number ≡ pos f
              → get_elem? t.bitmap_memory f ≡ get_elem? s.bitmap_memory f))

pub record Changes (c : MemoryConfig) (g : Owners) (s t : Memory) (v : ℕ) : Type 0 where
  pub stays :
      (p : ℕ) (a : PageRow) → HasOwner g p → p ≢ v → get_elem? s.rows p ≡ some a → Stays c s t p a
  pub swap_bits : t.bitmap_swap ≡ s.bitmap_swap
  pub swap_length : length t.swap_file ≡ length s.swap_file
  pub memory_length : length t.principal_memory ≡ length s.principal_memory
  pub before : PageRow
  pub after : PageRow
  pub before_in : get_elem? s.rows v ≡ some before
  pub after_in : get_elem? t.rows v ≡ some after
  pub same_place : after.swap_position ≡ before.swap_position
  pub page : IsPage c t v
  -- Its frame is no other page's.
  pub fresh :
      (after.presence ≡ false)
      ⊎ ((p : ℕ) (a : PageRow)
          → HasOwner g p
          → p ≢ v
          → get_elem? s.rows p ≡ some a
          → a.presence ≡ true
          → a.frame_number ≢ after.frame_number)

pub some_same {ℓ} : {A : Type ℓ} {a b : A} → some a ≡ some b → a ≡ b
some_same e = cc

pub same_row :
    (rows : List PageRow) (p : ℕ) (a b : PageRow)
    → get_elem? rows p ≡ some a
    → get_elem? rows p ≡ some b
    → a ≡ b
same_row rows p a b e e' = some_same (sym e ∙ e')

-- The frames are those of the principal memory.
pub read_frame_same :
    (c : MemoryConfig) (frame : ℤ) (s t : Memory)
    → t.principal_memory ≡ s.principal_memory
    → read_frame c frame t ≡ read_frame c frame s
unfolding read_frame
read_frame_same c frame s t e = rw e

module _ (c : MemoryConfig) (g : Owners) (s t : Memory) (v : ℕ) (k : Changes c g s t v) where
  -- What of the page's row the step leaves.
  pub changed_part {ℓ} :
      {A : Type ℓ} (part : PageRow → A) (a b : PageRow)
      → get_elem? s.rows v ≡ some a
      → get_elem? t.rows v ≡ some b
      → part b ≡ part a
      → part k.after ≡ part k.before
  changed_part part a b e e' same =
      ap part (same_row t.rows v k.after b k.after_in e')
      ∙ same
      ∙ ap part (same_row s.rows v a k.before e k.before_in)

  -- The view of a page that the step is not about.
  pub contents-Stays :
      (p : ℕ) (a : PageRow)
      → get_elem? s.rows p ≡ some a
      → Stays c s t p a
      → contents c t p ≡ contents c s p
  unfolding contents
  contents-Stays p a e h = elim h.frame_same [
    | inl absent ↦ rw (e, h.row_in, absent) h.swap_same
    | inr (bytes, bits) ↦ rw (e, h.row_in, bytes, h.swap_same) refl
  ]

  IsPage-Stays : (p : ℕ) → (h : IsPage c s p) → Stays c s t p h.row → IsPage c t p
  IsPage-Stays p h st = record {
    row = record h.row { use_bit = st.used };
    position = h.position;
    row_in = st.row_in;
    position_eq = h.position_eq;
    position_in = rw k.swap_length h.position_in;
    swap_bit = rw k.swap_bits h.swap_bit;
    place = elim h.place [
      | inl absent ↦ inl absent
      | inr (frame, r) ↦ elim st.frame_same [
        | inl absent ↦ absurd (cc (sym absent ∙ r.present))
        | inr (bytes, bits) ↦ inr (
          frame,
          record {
            present = r.present;
            frame_eq = r.frame_eq;
            bit = bits frame r.frame_eq ∙ r.bit;
            frame_in = rw k.memory_length r.frame_in;
            coherent = elim r.coherent [
              | inl dirty ↦ inl dirty
              | inr same ↦ inr (
                  st.swap_same
                  ∙ same
                  ∙ ap (λ f. read_frame c f s) (sym r.frame_eq)
                  ∙ sym bytes
                  ∙ ap (λ f. read_frame c f t) r.frame_eq)
            ];
          },
        )
      ]
    ];
  }

  -- The row that a page had before the step.
  record HadRow (p : ℕ) (a : PageRow) : Type 0 where
    old : PageRow
    old_in : get_elem? s.rows p ≡ some old
    place : a.swap_position ≡ old.swap_position
    state :
        ((p ≡ v) × (a ≡ k.after))
        ⊎ ((p ≢ v) × (a.presence ≡ old.presence) × (a.frame_number ≡ old.frame_number))

  row-HadRow :
      IsPages c s g
      → (p : ℕ) (a : PageRow) → HasOwner g p
      → get_elem? t.rows p ≡ some a
      → HadRow p a
  row-HadRow w p a o e = elim (ℕ_discrete p v) [
    | yes same ↦
        let here : a ≡ k.after =
          same_row t.rows v a k.after (subst (λ x. get_elem? t.rows x ≡ some a) same e)
            k.after_in in
        record {
          old = k.before;
          old_in = rw same k.before_in;
          place = ap (λ (r : PageRow). r.swap_position) here ∙ k.same_place;
          state = inl (same, here);
        }
    | no other ↦
        let h = w.pages p o in
        let st = k.stays p h.row o other h.row_in in
        let here : a ≡ record h.row { use_bit = st.used } =
          same_row t.rows p a (record h.row { use_bit = st.used }) e st.row_in in
        record {
          old = h.row;
          old_in = h.row_in;
          place = ap (λ (r : PageRow). r.swap_position) here;
          state = inr (
            other,
            ap (λ (r : PageRow). r.presence) here,
            ap (λ (r : PageRow). r.frame_number) here,
          );
        }
  ]

  -- The changed page shares its frame with no other.
  not_fresh :
      (p : ℕ) (a : PageRow)
      → HasOwner g p
      → p ≢ v
      → get_elem? s.rows p ≡ some a
      → a.presence ≡ true
      → k.after.presence ≡ true
      → a.frame_number ≢ k.after.frame_number
  not_fresh p a o other e present here = elim k.fresh [
    | inl absent ↦ absurd (cc (sym absent ∙ here))
    | inr apart ↦ apart p a o other e present
  ]

  frame_apart_after :
      IsPages c s g
      → (p q : ℕ) (a b : PageRow) → HasOwner g p
      → HasOwner g q
      → HadRow p a
      → HadRow q b
      → a.presence ≡ true
      → b.presence ≡ true
      → a.frame_number ≡ b.frame_number
      → p ≡ q
  frame_apart_after w p q a b o o' x y ha hb e = elim x.state [
    | inl (pv, av) ↦ elim y.state [
      | inl (qv, bv) ↦ pv ∙ sym qv
      | inr (qv, present, frame) ↦ absurd (
          not_fresh q y.old o' qv y.old_in (sym present ∙ hb)
            (ap (λ (r : PageRow). r.presence) (sym av) ∙ ha)
            (sym frame ∙ sym e ∙ ap (λ (r : PageRow). r.frame_number) av))
    ]
    | inr (pv, present, frame) ↦ elim y.state [
      | inl (qv, bv) ↦ absurd (
          not_fresh p x.old o pv x.old_in (sym present ∙ ha)
            (ap (λ (r : PageRow). r.presence) (sym bv) ∙ hb)
            (sym frame ∙ e ∙ ap (λ (r : PageRow). r.frame_number) bv))
      | inr (qv, present', frame') ↦
          w.frame_apart p q x.old y.old o o' x.old_in y.old_in (sym present ∙ ha)
            (sym present' ∙ hb) (sym frame ∙ e ∙ frame')
    ]
  ]

  -- The pages are as they should be after such a step.
  pub IsPages-Changes : IsPages c s g → IsPages c t g
  IsPages-Changes w = record {
    pages = λ p o. elim (ℕ_discrete p v) [
      | yes same ↦ subst (IsPage c t) (sym same) k.page
      | no other ↦ let h = w.pages p o in IsPage-Stays p h (k.stays p h.row o other h.row_in)
    ];
    swap_apart = λ p q a b o o' e e' same.
        let x = row-HadRow w p a o e in
        let y = row-HadRow w q b o' e' in
        w.swap_apart p q x.old y.old o o' x.old_in y.old_in (sym x.place ∙ same ∙ y.place);
    frame_apart = λ p q a b o o' e e' ha hb same.
        frame_apart_after w p q a b o o' (row-HadRow w p a o e) (row-HadRow w q b o' e') ha hb same;
  }

  -- The view of every other page is the same.
  pub contents-Changes :
      IsPages c s g → (p : ℕ) → HasOwner g p → p ≢ v → contents c t p ≡ contents c s p
  contents-Changes w p o other =
      let h = w.pages p o in contents-Stays p h.row h.row_in (k.stays p h.row o other h.row_in)
