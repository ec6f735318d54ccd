-- ===== src/Api/Client/Refused.antt =====
-- rte_hash_add_key_data can fail, and app_client_in of middlebox/src/api.c does not test for it.
use kernel_bypass_group_proj.Dpdk.{Dpdk}
use kernel_bypass_group_proj.Api.State.{State}
