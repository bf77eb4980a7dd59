-- ===== src/Examples/Codec.antt =====
-- A way to write and read fragments, in place of protobuf's.
use rsb_spread_cpp.Base.{◌≡◌, refl, ap, Option, none, some, [], ◌∷◌, ◌++◌, length, take, drop, Text}
use rsb_spread_cpp.Protocol.{Fragment}

abbrev put_text : Text → Text → Text
put_text t k = length t ∷ t ++ k

unfoldable pub serialize : Fragment → Text
serialize f =
    f.num_data_parts
    ∷ f.data_part
    ∷ f.sequence_number
    ∷ put_text f.sender_id (
        put_text f.notification.scope
          (put_text f.wire_schema (put_text f.payload (put_text f.rest []))))

abbrev get_text : {A : Type 0} → (Text → Text → Option A) → Text → Option A
get_text f [] = none
get_text f (n ∷ t) = f (take n t) (drop n t)

unfoldable pub parse : Text → Option Fragment
parse (num ∷ part ∷ seq ∷ t) =
    get_text
      (λ sender_id t.
        get_text
          (λ scope t.
            get_text
              (λ wire_schema t.
                get_text
                  (λ payload t.
                    get_text
                      (λ rest t. some (record {
                        notification = record {
                          sender_id = sender_id;
                          sequence_number = seq;
                          scope = scope;
                          wire_schema = wire_schema;
                          payload = payload;
                          rest = rest;
                        };
                        num_data_parts = num;
                        data_part = part;
                      }))
                      t)
                  t)
              t)
          t)
      t
parse _ = none

take_put : (t k : Text) → take (length t) (t ++ k) ≡ t
take_put [] k = take_zero k
  where
    take_zero : (k : Text) → take 0 k ≡ []
    take_zero [] = refl
    take_zero (x ∷ k) = refl
take_put (x ∷ t) k = ap (◌∷◌ x) (take_put t k)

drop_put : (t k : Text) → drop (length t) (t ++ k) ≡ k
drop_put [] k = drop_zero k
  where
    drop_zero : (k : Text) → drop 0 k ≡ k
    drop_zero [] = refl
    drop_zero (x ∷ k) = refl
drop_put (x ∷ t) k = drop_put t k

pub parse-serialize : (f : Fragment) → parse (serialize f) ≡ some f
unfolding parse serialize
parse-serialize f =
    let t5 = put_text f.rest [] in
    let t4 = put_text f.payload t5 in
    let t3 = put_text f.wire_schema t4 in
    let t2 = put_text f.notification.scope t3 in
    rw
      (
        take_put f.sender_id t2,
        drop_put f.sender_id t2,
        take_put f.notification.scope t3,
        drop_put f.notification.scope t3,
        take_put f.wire_schema t4,
        drop_put f.wire_schema t4,
        take_put f.payload t5,
        drop_put f.payload t5,
        take_put f.rest [],
      )
      refl
