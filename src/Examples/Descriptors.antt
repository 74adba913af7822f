-- ===== src/Examples/Descriptors.antt =====
-- A test of equality on service descriptors, in the place of proto.Equal.
use totem.Base.{
  ◌≡◌, refl, Bool, true, false, ◌&&◌, Option, none, some, List, [], ◌∷◌, same, same_iff, same_refl,
  ◌==◌, ==_iff, arith,
}
use totem.Wire.{
  ServiceDescriptor, MethodDescriptor, Qos, ReplicationStrategy, first, broadcast, unknown,
  Visibility,
}

abbrev same_bool : Bool → Bool → Bool
same_bool true b = b
same_bool false true = false
same_bool false false = true

same_bool_sound : (a b : Bool) → same_bool a b ≡ true → a ≡ b
same_bool_sound true true h = refl
same_bool_sound true false h = cc
same_bool_sound false true h = cc
same_bool_sound false false h = refl

same_bool_refl : (a : Bool) → same_bool a a ≡ true
same_bool_refl true = refl
same_bool_refl false = refl

-- a test for the elements makes one for options and for lists
abbrev same_option : {A : Type 0} → (A → A → Bool) → Option A → Option A → Bool
same_option f none none = true
same_option f (some a) (some b) = f a b
same_option f _ _ = false

abbrev same_list : {A : Type 0} → (A → A → Bool) → List A → List A → Bool
same_list f [] [] = true
same_list f (a ∷ as') (b ∷ bs) = f a b && same_list f as' bs
same_list f _ _ = false

module _ {A : Type 0} (f : A → A → Bool) (sound : (a b : A) → f a b ≡ true → a ≡ b)
    (refl_f : (a : A) → f a a ≡ true) where
  same_option_sound : (a b : Option A) → same_option f a b ≡ true → a ≡ b
  same_option_sound none none h = refl
  same_option_sound none (some b) h = cc
  same_option_sound (some a) none h = cc
  same_option_sound (some a) (some b) h = cc (sound a b h)

  same_option_refl : (a : Option A) → same_option f a a ≡ true
  same_option_refl none = refl
  same_option_refl (some a) = refl_f a

  same_list_sound : (a b : List A) → same_list f a b ≡ true → a ≡ b
  same_list_sound [] [] h = refl
  same_list_sound [] (b ∷ bs) h = cc
  same_list_sound (a ∷ as') [] h = cc
  same_list_sound (a ∷ as') (b ∷ bs) h =
      let one : f a b ≡ true = ground arith in
      let rest : same_list f as' bs ≡ true = ground arith in
      cc (sound a b one, same_list_sound as' bs rest)

  same_list_refl : (a : List A) → same_list f a a ≡ true
  same_list_refl [] = refl
  same_list_refl (a ∷ as') = rw (refl_f a, same_list_refl as') refl

abbrev same_strategy : ReplicationStrategy → ReplicationStrategy → Bool
same_strategy first first = true
same_strategy broadcast broadcast = true
same_strategy (unknown m) (unknown n) = m == n
same_strategy _ _ = false

same_strategy_sound : (a b : ReplicationStrategy) → same_strategy a b ≡ true → a ≡ b
same_strategy_sound first first h = refl
same_strategy_sound first broadcast h = cc
same_strategy_sound first (unknown n) h = cc
same_strategy_sound broadcast first h = cc
same_strategy_sound broadcast broadcast h = refl
same_strategy_sound broadcast (unknown n) h = cc
same_strategy_sound (unknown m) first h = cc
same_strategy_sound (unknown m) broadcast h = cc
same_strategy_sound (unknown m) (unknown n) h = cc ((==_iff m n).0 h)

same_strategy_refl : (a : ReplicationStrategy) → same_strategy a a ≡ true
same_strategy_refl first = refl
same_strategy_refl broadcast = refl
same_strategy_refl (unknown n) = (==_iff n n).1 refl

abbrev same_qos : Qos → Qos → Bool
same_qos a b = same_strategy a.replication_strategy b.replication_strategy

same_qos_sound : (a b : Qos) → same_qos a b ≡ true → a ≡ b
same_qos_sound a b h = cc (same_strategy_sound a.replication_strategy b.replication_strategy h)

abbrev same_visibility : Visibility → Visibility → Bool
same_visibility a b = same_bool a.spliced_clients b.spliced_clients

same_visibility_sound : (a b : Visibility) → same_visibility a b ≡ true → a ≡ b
same_visibility_sound a b h = cc (same_bool_sound a.spliced_clients b.spliced_clients h)

abbrev same_method : MethodDescriptor → MethodDescriptor → Bool
same_method a b =
    same a.name b.name
    && (same_bool a.client_streaming b.client_streaming
        && (same_bool a.server_streaming b.server_streaming
            && (same a.output_type b.output_type && same_option same_qos a.qos b.qos)))

same_method_sound : (a b : MethodDescriptor) → same_method a b ≡ true → a ≡ b
same_method_sound a b h =
    let names : same a.name b.name ≡ true = ground arith in
    let clients : same_bool a.client_streaming b.client_streaming ≡ true = ground arith in
    let servers : same_bool a.server_streaming b.server_streaming ≡ true = ground arith in
    let types : same a.output_type b.output_type ≡ true = ground arith in
    let strategies : same_option same_qos a.qos b.qos ≡ true = ground arith in
    cc (
      (same_iff a.name b.name).0 names,
      same_bool_sound a.client_streaming b.client_streaming clients,
      same_bool_sound a.server_streaming b.server_streaming servers,
      (same_iff a.output_type b.output_type).0 types,
      same_option_sound same_qos same_qos_sound (λ q. same_strategy_refl q.replication_strategy)
          a.qos b.qos strategies,
    )

same_method_refl : (a : MethodDescriptor) → same_method a a ≡ true
same_method_refl a =
    rw
      (
        same_refl a.name,
        same_bool_refl a.client_streaming,
        same_bool_refl a.server_streaming,
        same_refl a.output_type,
        same_option_refl same_qos same_qos_sound (λ q. same_strategy_refl q.replication_strategy)
            a.qos,
      )
      refl

abbrev pub same_descriptor : ServiceDescriptor → ServiceDescriptor → Bool
same_descriptor a b =
    same a.name b.name
    && (same_list same_method a.methods b.methods
        && same_option same_visibility a.visibility b.visibility)

pub same_descriptor_sound : (a b : ServiceDescriptor) → same_descriptor a b ≡ true → a ≡ b
same_descriptor_sound a b h =
    let names : same a.name b.name ≡ true = ground arith in
    let methods : same_list same_method a.methods b.methods ≡ true = ground arith in
    let seen : same_option same_visibility a.visibility b.visibility ≡ true = ground arith in
    cc (
      (same_iff a.name b.name).0 names,
      same_list_sound same_method same_method_sound same_method_refl a.methods b.methods methods,
      same_option_sound same_visibility same_visibility_sound
          (λ v. same_bool_refl v.spliced_clients) a.visibility b.visibility seen,
    )

pub same_descriptor_refl : (a : ServiceDescriptor) → same_descriptor a a ≡ true
same_descriptor_refl a =
    rw
      (
        same_refl a.name,
        same_list_refl same_method same_method_sound same_method_refl a.methods,
        same_option_refl same_visibility same_visibility_sound
            (λ v. same_bool_refl v.spliced_clients) a.visibility,
      )
      refl
