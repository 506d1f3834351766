-- ===== src/Config/Keys.antt =====
-- The table of keys at the end of comm/bmsh_config.cpp, each with its section and its default.
-- `none` is a number that `sscanf` did not read.
use cnode.Prelude.{Option}
use cnode.Prelude.Int.{ℤ, pos, negsuc}
use cnode.Prelude.Bytes.{Bytes, codes}
use cnode.Config.{Config, str_conf, int_conf}

abbrev pub get_log_path : Config → Bytes
get_log_path conf = str_conf conf (codes "common") (codes "logpath") (codes ".")

abbrev pub redis_pool_conf_file : Config → Bytes
redis_pool_conf_file conf =
    str_conf conf (codes "common") (codes "redisconffile")
      (codes "/etc/bmsh_redis_connpoll_conf.xml")

abbrev pub redis_pool_name : Config → Bytes
redis_pool_name conf = str_conf conf (codes "common") (codes "redispool") (codes "qlyredis")

abbrev pub thread_num : Config → Option ℤ
thread_num conf = int_conf conf (codes "common") (codes "event_thread") (pos 1)

abbrev pub process_num : Config → Option ℤ
process_num conf = int_conf conf (codes "common") (codes "process") (pos 1)

abbrev pub respawn : Config → Option ℤ
respawn conf = int_conf conf (codes "common") (codes "respawn") (pos 0)

abbrev pub task_thread : Config → Option ℤ
task_thread conf = int_conf conf (codes "common") (codes "task_thread") (pos 2)

abbrev pub log_server : Config → Bytes
log_server conf = str_conf conf (codes "common") (codes "log_server") (codes "unknow")

abbrev pub icomet_e_host : Config → Bytes
icomet_e_host conf = str_conf conf (codes "icomet") (codes "host_e") (codes "unknow")

abbrev pub icomet_i_host : Config → Bytes
icomet_i_host conf = str_conf conf (codes "icomet") (codes "host") (codes "127.0.0.1")

abbrev pub icomet_admin_port : Config → Option ℤ
icomet_admin_port conf = int_conf conf (codes "icomet") (codes "admin_port") (pos 8100)

abbrev pub icomet_front_port : Config → Option ℤ
icomet_front_port conf = int_conf conf (codes "icomet") (codes "front_port") (pos 8000)

abbrev pub icomet_interval : Config → Option ℤ
icomet_interval conf = int_conf conf (codes "icomet") (codes "interval") (pos 30)

abbrev pub node_host_id : Config → Option ℤ
node_host_id conf = int_conf conf (codes "node") (codes "hostid") (negsuc 0)

abbrev pub node_ipc_key : Config → Option ℤ
node_ipc_key conf = int_conf conf (codes "node") (codes "ipc_key") (pos 21332)

abbrev pub mongo_pool_name : Config → Bytes
mongo_pool_name conf = str_conf conf (codes "common") (codes "mongopool") (codes "")

abbrev pub test_ini : Config → Option ℤ
test_ini conf = int_conf conf (codes "comm3") (codes "ss") (pos 234)
