-- ===== src/Events/Attributes.antt =====
-- The attributes of a log record, as the recorder of pkg/events/recorder.go flattens them. A value is what
-- `Value.Resolve` makes of it, with the text of `fmt.Sprint`; `strings.Join`, `+` and the comparison
-- with "" are parameters.
use interactive_paxos.Prelude.{
  ◌≡◌, refl, sym, ◌∙◌, ap, inl, inr, Bool, true, false, ℤ, String, List, [], ◌∷◌, ◌++◌, map,
  if◌then◌else◌, Bool-cases,
}
use interactive_paxos.Events.{Field, Event}
use interactive_paxos.Events.Followers.{Followed, publish_to}

-- `join sep parts`, and the concatenation of two texts.
pub record Joining : Type 0 where
  pub join : String → List String → String
  pub append : String → String → String
  pub is_empty : String → Bool

mutual
  -- `slog.Attr` and `slog.Value`.
  pub data Value : Type 0 where
    plain : String → Value
    group : Attrs → Value

  pub data Attrs : Type 0 where
    end : Attrs
    attr : String → Value → Attrs → Attrs

abbrev pub has_groups : List String → Bool
has_groups [] = false
has_groups (g ∷ gs) = true

abbrev append_all : Attrs → Attrs → Attrs
append_all end more = more
append_all (attr name value rest) more = attr name value (append_all rest more)

-- `Recorder`, less its state and the handler inside.
pub record Recorder : Type 0 where
  pub attrs : Attrs
  pub groups : List String

-- `WithAttrs`
abbrev pub with_attrs : Attrs → Recorder → Recorder
with_attrs more r = record r { attrs = append_all r.attrs more }

-- `WithGroup`
abbrev pub with_group : String → Recorder → Recorder
with_group name r = record r { groups = r.groups ++ name ∷ [] }

module _ (texts : Joining) where
  -- A field of a value that is no group.
  abbrev pub field_of : List String → String → String → List Field → List Field
  field_of groups name text dst =
      let dotted = texts.append (texts.append (texts.join "." groups) ".") name in
      let full = if has_groups groups then dotted else name in
      if texts.is_empty name then dst else dst ++ record { key = full; value = text } ∷ []

  mutual
    -- `appendAttr`
    pub append_attr : List Field → List String → String → Value → List Field
    append_attr dst groups name (plain text) = field_of groups name text dst
    append_attr dst groups name (group nested) = append_attrs dst (groups ++ name ∷ []) nested

    pub append_attrs : List Field → List String → Attrs → List Field
    append_attrs dst groups end = dst
    append_attrs dst groups (attr name value rest) =
        append_attrs (append_attr dst groups name value) groups rest

  -- The fields of `Handle`: those of the recorder, and those of the record.
  abbrev pub record_fields : Recorder → Attrs → List Field
  record_fields r attrs = append_attrs (append_attrs [] r.groups r.attrs) r.groups attrs

  -- `Handle`, less the handler inside; the recorder numbers the event.
  abbrev pub handle : Recorder → ℤ → String → String → Attrs → Followed → Followed
  handle r time level message attrs f =
      publish_to
        (record {
          seq = 0;
          time = time;
          level = level;
          message = message;
          fields = record_fields r attrs;
        })
        f

  -- `Event.FieldString`
  abbrev pub field_string : Event → String
  field_string e =
      texts.join " " (map (λ f. texts.append (texts.append f.key "=") f.value) e.fields)

  append_nil : (xs : List Field) → xs ++ [] ≡ xs
  append_nil [] = refl
  append_nil (x ∷ xs) = ap (λ r. x ∷ r) (append_nil xs)

  append_assoc : (xs ys zs : List Field) → (xs ++ ys) ++ zs ≡ xs ++ (ys ++ zs)
  append_assoc [] ys zs = refl
  append_assoc (x ∷ xs) ys zs = ap (λ r. x ∷ r) (append_assoc xs ys zs)

  field_of-append :
      (groups : List String) (name text : String) (dst : List Field)
      → field_of groups name text dst ≡ dst ++ field_of groups name text []
  field_of-append groups name text dst = elim (Bool-cases (texts.is_empty name)) [
    | inl e ↦ rw e (sym (append_nil dst))
    | inr e ↦ rw e refl
  ]

  -- The fields of attributes come after those that are there, and do not depend on them.
  mutual
    unfolding append_attr

    append_attr-append :
        (dst : List Field) (groups : List String) (name : String) (value : Value)
        → append_attr dst groups name value ≡ dst ++ append_attr [] groups name value
    append_attr-append dst groups name (plain text) = field_of-append groups name text dst
    append_attr-append dst groups name (group nested) =
        append_attrs-append dst (groups ++ name ∷ []) nested

    pub append_attrs-append :
        (dst : List Field) (groups : List String) (attrs : Attrs)
        → append_attrs dst groups attrs ≡ dst ++ append_attrs [] groups attrs
    append_attrs-append dst groups end = sym (append_nil dst)
    append_attrs-append dst groups (attr name value rest) =
        append_attrs-append (append_attr dst groups name value) groups rest
        ∙ ap (λ fs. fs ++ append_attrs [] groups rest) (append_attr-append dst groups name value)
        ∙ append_assoc dst (append_attr [] groups name value) (append_attrs [] groups rest)
        ∙ ap (λ fs. dst ++ fs)
            (sym (append_attrs-append (append_attr [] groups name value) groups rest))

  append_attrs-append_all :
      (dst : List Field) (groups : List String) (attrs more : Attrs)
      → append_attrs dst groups (append_all attrs more)
        ≡ append_attrs (append_attrs dst groups attrs) groups more
  unfolding append_attr
  append_attrs-append_all dst groups end more = refl
  append_attrs-append_all dst groups (attr name value rest) more =
      append_attrs-append_all (append_attr dst groups name value) groups rest more

  -- A record of a recorder made by `WithAttrs` has the fields of the recorder that it was made from and
  -- of the attributes, in that order, and then its own.
  pub record_fields-with_attrs :
      (r : Recorder) (more attrs : Attrs)
      → record_fields (with_attrs more r) attrs
        ≡ record_fields r more ++ append_attrs [] r.groups attrs
  record_fields-with_attrs r more attrs =
      ap (λ fs. append_attrs fs r.groups attrs) (append_attrs-append_all [] r.groups r.attrs more)
      ∙ append_attrs-append (record_fields r more) r.groups attrs
