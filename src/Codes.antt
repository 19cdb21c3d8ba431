-- ===== src/Codes.antt =====
-- include/ipfs_error_codes.h: the codes with which the exported functions answer.
use asio_ipfs.Base.{ℕ}

pub data Code : Type 0 where
  success node_exists parse_config_fail read_config_failed create_repo_failed : Code
  open_repo_failed plugins_failed api_access_failed start_node_failed : Code
  mprome_inject_failed flatfs_failed levelds_failed no_node resolve_failed : Code
  add_failed cat_failed read_failed publish_failed pin_failed unpin_failed : Code
  gc_failed api_failed gateway_failed mfspin_failed build_env_failed calc_cid_failed : Code

pub to_int : Code → ℕ
to_int success = 0
to_int node_exists = 1
to_int parse_config_fail = 2
to_int read_config_failed = 3
to_int create_repo_failed = 4
to_int open_repo_failed = 5
to_int plugins_failed = 6
to_int api_access_failed = 7
to_int start_node_failed = 8
to_int mprome_inject_failed = 9
to_int flatfs_failed = 10
to_int levelds_failed = 11
to_int no_node = 12
to_int resolve_failed = 13
to_int add_failed = 14
to_int cat_failed = 15
to_int read_failed = 16
to_int publish_failed = 17
to_int pin_failed = 18
to_int unpin_failed = 19
to_int gc_failed = 20
to_int api_failed = 21
to_int gateway_failed = 22
to_int mfspin_failed = 23
to_int build_env_failed = 24
to_int calc_cid_failed = 25
