-- ===== src/Messaging/Kafka/Avro/Mentions.antt =====
-- The classes that the properties of packages/messaging/broker/kafka/avro-schema.ts refer to.
use nest_convoy.Prelude.{◌≡◌, refl, ◌⊎◌, inl, inr, [], ◌∷◌}
use nest_convoy.Prelude.Result.{Result, ok, err, ◌>>=◌}
use nest_convoy.Common.Exceptions.{range_error}
use nest_convoy.Events.Schema.{Class}
use nest_convoy.Messaging.Kafka.Avro.{
  PropertySchema, PropertyType, TemplateArgs, property, class_type, array_type, union_type,
  enum_type, plain_type, no_args, arg, Properties,
}

-- The property refers to a class of `P`, as its type or within arrays and unions.
abbrev mutual
  pub Mentions : (Class → Type 0) → PropertySchema → Type 0
  Mentions P (property type optional nullable) = MentionsType P type

  pub MentionsType : (Class → Type 0) → PropertyType → Type 0
  MentionsType P (class_type c) = P c
  MentionsType P (array_type args) = MentionsArgs P args
  MentionsType P (union_type args) = MentionsArgs P args
  MentionsType P (enum_type symbols) = ⊥
  MentionsType P (plain_type name) = ⊥

  pub MentionsArgs : (Class → Type 0) → TemplateArgs → Type 0
  MentionsArgs P no_args = ⊥
  MentionsArgs P (arg p args) = Mentions P p ⊎ MentionsArgs P args

abbrev pub AnyMentions : (Class → Type 0) → Properties → Type 0
AnyMentions P [] = ⊥
AnyMentions P ((name, p) ∷ ps) = Mentions P p ⊎ AnyMentions P ps

-- All that the property refers to is in `P`.
abbrev mutual
  pub Within : (Class → Type 0) → PropertySchema → Type 0
  Within P (property type optional nullable) = WithinType P type

  pub WithinType : (Class → Type 0) → PropertyType → Type 0
  WithinType P (class_type c) = P c
  WithinType P (array_type args) = WithinArgs P args
  WithinType P (union_type args) = WithinArgs P args
  WithinType P (enum_type symbols) = Unit {0}
  WithinType P (plain_type name) = Unit {0}

  pub WithinArgs : (Class → Type 0) → TemplateArgs → Type 0
  WithinArgs P no_args = Unit {0}
  WithinArgs P (arg p args) = Within P p × WithinArgs P args

abbrev pub AllWithin : (Class → Type 0) → Properties → Type 0
AllWithin P [] = Unit {0}
AllWithin P ((name, p) ∷ ps) = Within P p × AllWithin P ps

module _ (P Q : Class → Type 0) (weaken : (c : Class) → P c → Q c) where
  mutual
    property-Within : (p : PropertySchema) → Within P p → Within Q p
    property-Within (property type optional nullable) h = type-Within type h

    type-Within : (t : PropertyType) → WithinType P t → WithinType Q t
    type-Within (class_type c) h = weaken c h
    type-Within (array_type args) h = args-Within args h
    type-Within (union_type args) h = args-Within args h
    type-Within (enum_type symbols) h = tt
    type-Within (plain_type name) h = tt

    args-Within : (args : TemplateArgs) → WithinArgs P args → WithinArgs Q args
    args-Within no_args h = tt
    args-Within (arg p args) (h, hs) = (property-Within p h, args-Within args hs)

  pub all-Within : (ps : Properties) → AllWithin P ps → AllWithin Q ps
  all-Within [] h = tt
  all-Within ((name, p) ∷ ps) (h, hs) = (property-Within p h, all-Within ps hs)

abbrev pub IsOk : {A : Type 0} → Result A → Type 0
IsOk {A} r = (a : A) × (r ≡ ok a)

-- The only exception is that of the call stack.
abbrev pub Overflows : {A : Type 0} → Result A → Type 0
Overflows r = r ≡ err range_error

pub bind-IsOk :
    {A B : Type 0} (r : Result A) (f : A → Result B)
    → IsOk r
    → ((a : A) → IsOk (f a))
    → IsOk (r >>= f)
bind-IsOk r f (a, e) h = rw e (h a)

pub bind-Overflows :
    {A B : Type 0} (r : Result A) (f : A → Result B) → Overflows r → Overflows (r >>= f)
bind-Overflows r f e = rw e refl

pub bind-Overflows_later :
    {A B : Type 0} (r : Result A) (f : A → Result B)
    → IsOk r ⊎ Overflows r
    → ((a : A) → Overflows (f a))
    → Overflows (r >>= f)
bind-Overflows_later r f (inl (a, e)) h = rw e (h a)
bind-Overflows_later r f (inr e) h = rw e refl

pub bind-either :
    {A B : Type 0} (r : Result A) (f : A → Result B)
    → IsOk r ⊎ Overflows r
    → ((a : A) → IsOk (f a) ⊎ Overflows (f a))
    → IsOk (r >>= f) ⊎ Overflows (r >>= f)
bind-either r f (inl (a, e)) h = rw e (h a)
bind-either r f (inr e) h = inr (rw e refl)
