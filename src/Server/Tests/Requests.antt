-- ===== src/Server/Tests/Requests.antt =====
-- Messages of clients, translated.
use global_cache_adaptor.Common.{◌≡◌, refl, arith, true, false, [], Option, none, some}
use global_cache_adaptor.Common.Number.{strtoull, digits_value, skip_space}
use global_cache_adaptor.Server.Op.{new_op}
use global_cache_adaptor.Server.Throttle.{gcache_write}
use global_cache_adaptor.Server.MsgModule.{Converted, convert_clientop}
use global_cache_adaptor.Server.MsgModule.Classes.{Adds, convert_clientop-Adds}
use global_cache_adaptor.Server.OpRequest.{
  sections, is_rbd_data, rbd_objid, done, format_specify, format_unspecify, sa_version, convert_ops,
  process_op_req, contain_write_op,
}
use global_cache_adaptor.Server.OpRequest.Kinds.{contain_write_op_kind}
use global_cache_adaptor.Server.OpRequest.NameFormat.Roundtrip.{
  pooled_name, rbd_objid-pooled_name, image_name, rbd_objid-image_name,
}
use global_cache_adaptor.Server.Tests.Data.{
  buffer, write_two, no_options, write_message, write_request,
}

abbrev converted : Option Converted → Converted
converted none = record { copyup = false; one_op = new_op []; options = no_options }
converted (some r) = r

abbrev write_converted : Converted
write_converted = converted (convert_clientop buffer false write_two (new_op []) no_options)

write_two-converted :
    convert_clientop buffer false write_two (new_op []) no_options ≡ some write_converted
unfolding convert_clientop
write_two-converted = refl

convert_clientop-Adds_example : Adds write_two no_options write_converted.options
convert_clientop-Adds_example =
    convert_clientop-Adds buffer false write_two (new_op []) no_options write_converted
      (record {
        write_u32 = omega arith;
        read_u32 = omega arith;
        write_u64 = omega arith;
        read_u64 = omega arith;
      })
      write_two-converted

write_message-done : process_op_req buffer false write_message ≡ done write_request
unfolding process_op_req convert_ops convert_clientop sections is_rbd_data rbd_objid strtoull
    digits_value skip_space
write_message-done = refl

write_message-contains : contain_write_op write_message.ops ≡ true
unfolding contain_write_op
write_message-contains = refl

rbd_objid-pooled_name_example :
    (is_rbd_data (sections (pooled_name 1 42 2 0xabc 7)) ≡ true)
    × (rbd_objid (sections (pooled_name 1 42 2 0xabc 7))
        ≡ some (record {
          pool_id = 42;
          head = 0x1abc;
          seq = 7;
          format = format_specify;
          version = sa_version;
        }))
rbd_objid-pooled_name_example =
    rbd_objid-pooled_name 1 42 2 0xabc 7 (omega arith) (omega arith) (omega arith) (omega arith)
      (omega arith)

rbd_objid-image_name_example :
    (is_rbd_data (sections (image_name 2 0xabc 7)) ≡ true)
    × (rbd_objid (sections (image_name 2 0xabc 7))
        ≡ some (record {
          pool_id = 0;
          head = 0x1abc;
          seq = 7;
          format = format_unspecify;
          version = sa_version;
        }))
rbd_objid-image_name_example =
    rbd_objid-image_name 2 0xabc 7 (omega arith) (omega arith) (omega arith)

contain_write_op_kind_example : write_request.option_type ≡ gcache_write
contain_write_op_kind_example =
    contain_write_op_kind buffer false write_message write_request write_message-done (omega arith)
      write_message-contains
