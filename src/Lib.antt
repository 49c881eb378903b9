-- ===== src/Lib.antt =====
-- Verification of the Octavia F5 provider driver, which configures F5 BIG-IP devices by AS3
-- declarations for the load balancers of OpenStack Octavia.
--
-- The program. The API's messages reach the controller worker, whose handlers queue the network of
-- an entity in a set queue. A worker thread takes a network out of the queue and synchronises it: it
-- ensures the SelfIP ports, configures the network on the devices, sends the declaration of all
-- load balancers of the network to the active device, and reports the new statuses to Octavia.
-- Periodic tasks queue what was missed. A status manager reads the devices' statistics and feeds
-- them, as heartbeats, to Octavia's health updates, which write the operating statuses.
--
-- The files, with the code they are about (paths from the repository's root):
--   Worker        octavia_f5/controller/worker/controller_worker.py: f5sync, add_loadbalancer and
--                 remove_loadbalancer, as calls (the type Call) that stop at the first that raises.
--                 The order of the calls is in Worker.Plans, Reports and Removal.
--   Handlers      the same file: one function per message handler, with its retries.
--   Periodic      the same file: pending_sync, cleanup_orphaned_tenants and
--                 full_sync_reappearing_devices.
--   SetQueue      octavia_f5/controller/worker/set_queue.py.
--   Status        octavia_f5/controller/worker/status_manager.py: the reports to Octavia.
--   SyncManager   octavia_f5/controller/worker/sync_manager.py and octavia_f5/utils/decorators.py:
--                 the active device, the retries and the failover.
--   HealthMessage, HealthPools, Health
--                 octavia_f5/controller/statusmanager/legacy_healthmanager/health_drivers/update_db.py:
--                 a heartbeat and what it writes to the database.
--   Pool, Monitor, Names, Text
--                 octavia_f5/restclient/as3objects/pool.py, pool_member.py, monitor.py, the get_name
--                 functions beside them, and octavia_f5/restclient/as3types.py.
--   Policy, Tenant, Esd
--                 policy_endpoint.py, tenant.py, and get_esd_entities of service.py, beside them.
--                 Tenant has get_service as an argument; Tenant.Services gives it that of Service.
--   Service       get_service of octavia_f5/restclient/as3objects/service.py: the objects of a listener,
--                 collected in a Build. ServiceArgs has the data, ServiceTls the code down to the default
--                 pool, ServiceExtras the rest.
--   Certs, Tls, Ciphers, Irules
--                 certificate.py, tls.py, cipher.py, irule.py and persist.py beside it, and
--                 octavia_f5/utils/cert_manager.py.
--   Devices, Heartbeat
--                 octavia_f5/controller/statusmanager/status_manager.py: the checks of the devices with
--                 their writes to the amphora table, and the messages of a heartbeat.
--   Tasks, Routes octavia_f5/controller/worker/tasks/f5_tasks.py: every task as the requests it sends;
--                 DeviceRest has the requests and the answers of a device.
--   Flows         octavia_f5/controller/worker/flows/f5_flows.py: the tasks of each flow, in order.
--   Driver        octavia_f5/api/drivers/f5_driver/driver.py: the requests of the API, each as the
--                 message that it sends to a controller worker.
--   EsdRepository octavia_f5/utils/esd_repo.py: which tags of the ESD files are kept.
--   L2            octavia_f5/controller/worker/l2_sync_manager.py: the flows that are started, and when
--                 a failure is an error.
--   SelfIps       ensure_selfips of octavia_f5/network/drivers/neutron/neutron_client.py.
--   Octavia       the fields of Octavia's data models that the code reads.
--   Runs          code that makes calls and stops at the first one that raises.
--   Base          names of the libraries, and lemmas on lists, dicts and results.
--   Samples       data for the examples; every module with theorems has its own module Examples.
--
-- How the code is modelled. The database, the network driver, the devices and Octavia's driver
-- library are arguments (the records World and Pending): functions that say what a read returns and
-- what a call raises. Reads that the code repeats are numbered, so that they may differ. Loops are
-- recursion on their lists. Retries are recursion on the number of attempts left: 15 in the worker, in
-- ensure_selfips and in the sync manager, 3 in the status manager and in the VLAN task, as in the code; waiting
-- times are left out. The iteration order of a Python set is not specified, and the model fixes one.
-- Exceptions are values of Base.Results. Numbers are natural; a timestamp is a natural number of
-- seconds.
--
-- Libraries are arguments too: the key manager and the functions that read certificates, hash and check
-- ciphers (KeyManager, Hashing, Validate), the options and the ESDs (Environment), and what a device
-- answers (Device). A listener's default pool is the row of its id, at least one device is
-- configured, and the rows of the amphora table are found by the name of their device.
--
-- Not modelled: logging and metrics; the endless loops of the threads and their locks; HTTP and SQL;
-- the AS3 classes, which only hold JSON; the texts of the iRules; tasks of an unordered flow that run
-- at the same time, where their order is an argument; full_sync of the L2 synchronisation, and the
-- calls of Neutron but for ensure_selfips; the arbiter, rescheduling and the scheduler; UpdateStatsDb.
-- In Worker, tenant_update is one call: the statuses that it reports with set_error are in Tenant.
pub mod Base
pub mod Certs
pub mod Ciphers
pub mod DeviceRest
pub mod Devices
pub mod Driver
pub mod Esd
pub mod EsdRepository
pub mod Flows
pub mod Handlers
pub mod Health
pub mod HealthMessage
pub mod HealthPools
pub mod Heartbeat
pub mod Irules
pub mod L2
pub mod Monitor
pub mod Names
pub mod Octavia
pub mod Periodic
pub mod Policy
pub mod Pool
pub mod Routes
pub mod Runs
pub mod Samples
pub mod SelfIps
pub mod Service
pub mod ServiceArgs
pub mod ServiceExtras
pub mod ServiceTls
pub mod SetQueue
pub mod Status
pub mod SyncManager
pub mod Tasks
pub mod Tenant
pub mod Text
pub mod Tls
pub mod Worker
